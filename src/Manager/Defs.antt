-- ===== src/Manager/Defs.antt =====
-- The state of `FerrousNativeManager` (src/native_runtime.rs), and `persist_record`, `publish_lifecycle`,
-- `mark_record_exited`, `get_shell`, `list_shells` and `live_records`. The mutex is held by one operation at a
-- time. A child process, a stream and a file that the manager holds is a handle, which is a number.
use ferrous_framework.Base.{
  ℕ, String, Bool, Option, none, some, List, [], ◌∷◌, ◌++◌, ok, err, if◌then◌else◌,
}
use ferrous_framework.Base.Action.{Action, continue}
use ferrous_framework.Base.Assoc.{lookup, put}
use ferrous_framework.Shell.Record.{exited, ShellRecord, PersistedRecord}
use ferrous_framework.Shell.Persist.{Host, to_persisted, from_persisted}
use ferrous_framework.History.Defs.{id_first, sort_by, limit_exited_shell_history}

pub data Error : Type 0 where
  empty_command bad_log_dir not_spawned not_registered not_persisted : Error
  not_live not_running no_stdin no_stdin_eof no_resize not_written not_resized : Error
  not_waited not_signalled still_alive : Error
  no_autostart bad_pty_mode unsupported_backend not_ready : Error

-- `FerrousNativeLifecycleEventKind`
pub data Kind : Type 0 where
  spawned updated gone : Kind

-- `FerrousNativeLifecycleEvent`
pub record Lifecycle : Type 0 where
  pub kind : Kind
  pub shell_id : String
  pub shell : ShellRecord

-- `NativeShellEntry`
pub record Entry : Type 0 where
  pub shell : ShellRecord
  pub record_path : String
  pub child : ℕ
  pub input : Option ℕ
  pub output : Option ℕ
  pub resize : Option ℕ

-- `FerrousNativeStore`, as far as the manager reads it; `join` is that of paths
pub record Store : Type 0 where
  pub runtime_id : String
  pub logs_dir : String
  pub metadata_dir : String
  pub join : String → String → String

-- The state. `disk` has the records that can be read below the metadata directory, by their paths;
-- `lifecycle` the events that were sent, `written` what was written to the streams, and `killed` the children
-- that were killed.
pub record Manager : Type 0 where
  pub next_id : ℕ
  pub entries : List (String × Entry)
  pub disk : List (String × PersistedRecord)
  pub lifecycle : List Lifecycle
  pub written : List (ℕ × List ℕ)
  pub killed : List ℕ

-- What one operation takes from the clock and the file system.
pub record Io : Type 0 where
  pub now : ℕ
  pub writable : Bool

abbrev pub M : Type 0 → Type 0
M A = Action Manager Error A

-- `record_path_for`
abbrev pub record_path_for : Store → String → String
record_path_for store shell_id = store.join (store.join store.metadata_dir shell_id) "meta.json"

-- `persist_record`: the record is renamed into its place, so a failure leaves the old one
unfoldable pub persist_record : Host → Io → ShellRecord → String → M (Unit {0})
persist_record host io shell path m =
    if io.writable
    then (ok tt, record m { disk = put path (to_persisted host shell) m.disk })
    else (err not_persisted, m)

unfoldable pub publish_lifecycle : Kind → ShellRecord → Manager → Manager
publish_lifecycle kind shell m = record m {
  lifecycle = m.lifecycle ++ record { kind = kind; shell_id = shell.id; shell = shell } ∷ [];
}

-- the three assignments to a record whose process is gone
abbrev pub exited_record : Io → Option ℕ → ShellRecord → ShellRecord
exited_record io exit_code shell = record shell {
  status = exited;
  exit_code = exit_code;
  updated_at_ms = io.now;
}

abbrev pub with_shell : String → Entry → ShellRecord → Manager → Manager
with_shell shell_id e shell m = record m {
  entries = put shell_id (record e { shell = shell }) m.entries;
}

-- `persist_record(..)?` and what follows it
abbrev pub persist_then_publish : Host → Io → Kind → ShellRecord → String → M (Unit {0})
persist_then_publish host io kind shell path m =
    continue (persist_record host io shell path m)
      (λ _ m'. (ok tt, publish_lifecycle kind shell m'))

unfoldable pub mark_record_exited : Host → Io → ShellRecord → Option ℕ → M (Unit {0})
unfolding lookup persist_record publish_lifecycle
mark_record_exited host io fallback exit_code m = elim (lookup fallback.id m.entries) [
  | some e ↦
      let shell = exited_record io exit_code e.shell in
      persist_then_publish host io gone shell e.record_path (with_shell fallback.id e shell m)
  | none ↦
      let shell = exited_record io exit_code fallback in
      persist_then_publish host io gone shell shell.record_path m
]

-- `list_persisted_records`
unfoldable pub list_persisted_records : Host → List (String × PersistedRecord) → List ShellRecord
list_persisted_records host [] = []
list_persisted_records host ((path, p) ∷ rest) =
    from_persisted host path p ∷ list_persisted_records host rest

-- `records.insert` of every record, in order
unfoldable pub by_id : List ShellRecord → List (String × ShellRecord) → List (String × ShellRecord)
unfolding put
by_id [] found = found
by_id (r ∷ rs) found = by_id rs (put r.id r found)

unfoldable pub shells_of : List (String × Entry) → List ShellRecord
shells_of [] = []
shells_of ((shell_id, e) ∷ rest) = e.shell ∷ shells_of rest

unfoldable pub values : List (String × ShellRecord) → List ShellRecord
values [] = []
values ((shell_id, r) ∷ rest) = r ∷ values rest

-- `list_shells`: a live record takes the place of the one on disk. The order of the map is that of the
-- last sort of `limit_exited_shell_history`.
unfoldable pub list_shells : Host → Manager → List ShellRecord
list_shells host m =
    limit_exited_shell_history
      (values (by_id (shells_of m.entries) (by_id (list_persisted_records host m.disk) [])))

unfoldable pub live_records : Manager → List ShellRecord
live_records m = sort_by id_first (shells_of m.entries)

-- `get_shell`
unfoldable pub get_shell : Host → Store → String → Manager → Option ShellRecord
get_shell host store shell_id m = elim (lookup shell_id m.entries) [
  | some e ↦ some e.shell
  | none ↦ elim (lookup (record_path_for store shell_id) m.disk) [
    | some p ↦ some (from_persisted host (record_path_for store shell_id) p)
    | none ↦ none
  ]
]
