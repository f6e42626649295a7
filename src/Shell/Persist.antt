-- ===== src/Shell/Persist.antt =====
-- `persist_record` and `load_persisted_record` of src/native_runtime.rs, between a record and what is
-- written to its `meta.json`. `Host` has what they take from the platform: the process's own id and the
-- liveness test, the two conversions of times between milliseconds and `f64` seconds, the path of a
-- log beside a record, how a JSON number prints, and `to_string_lossy` on a path, which changes one that is
-- no UTF-8.
use ferrous_framework.Base.{
  ℕ, String, str_eq, Bool, true, false, ◌&&◌, ◌||◌, not, Option, none, some, List, [], ◌∷◌, ◌==◌,
  if◌then◌else◌,
}
use ferrous_framework.Base.Assoc.{lookup}
use ferrous_framework.Json.{Number, Value, null, bool, number, string, array, object}
use ferrous_framework.LogProjection.Pointer.{concat}
use ferrous_framework.Shell.Record.{
  Status, exited, is_running, Capabilities, ShellRecord, PersistedRecord,
}
use ferrous_framework.Shell.Names.{
  or_else, unwrap_or, derive_app_id, derive_is_app_worker, infer_backend_from_flags,
}

pub record Host : Type 0 where
  pub process_id : ℕ
  pub pid_is_live : ℕ → Bool
  pub to_seconds : ℕ → ℕ
  pub is_positive : ℕ → Bool
  pub to_ms : ℕ → ℕ
  pub sibling_log : String → String → String → Option String
  pub print_number : Number → String
  pub path_to_string : String → String

-- `Option::map` on the path of a record
abbrev pub map_option : (String → String) → Option String → Option String
map_option f none = none
map_option f (some a) = some (f a)

-- `string_map_to_json_object`
unfoldable pub string_map_to_json_object : List (String × String) → List (String × Value)
string_map_to_json_object [] = []
string_map_to_json_object ((k, v) ∷ m) = (k, string v) ∷ string_map_to_json_object m

-- `persist_record`: the record that is written
unfoldable pub to_persisted : Host → ShellRecord → PersistedRecord
unfolding lookup
to_persisted host r = record {
  id = r.id;
  spec_id = some r.spec_id;
  backend = some r.backend;
  command = r.command;
  cwd = map_option host.path_to_string r.cwd;
  pid = some r.pid;
  status = some r.status;
  exit_code = r.exit_code;
  label = some r.label;
  subgroups = r.subgroups;
  record_path = some (host.path_to_string r.record_path);
  stdout_log = some (host.path_to_string r.stdout_log);
  stderr_log = some (host.path_to_string r.stderr_log);
  io_metadata_log = map_option host.path_to_string r.io_metadata_log;
  pty_mode = r.pty_mode;
  autostart = r.autostart;
  ui = r.ui;
  debug = r.debug;
  log_codecs = r.log_codecs;
  created_at_ms = r.created_at_ms;
  updated_at_ms = r.updated_at_ms;
  created_at = some (host.to_seconds r.created_at_ms);
  updated_at = some (host.to_seconds r.updated_at_ms);
  run_id = lookup "FRAMEWORK_SHELLS_RUN_ID" r.env;
  launcher_pid = some host.process_id;
  env_keys = r.env_keys;
  env_overrides = string_map_to_json_object r.env_overrides;
  uses_pty = str_eq r.backend "pty";
  uses_pipes = str_eq r.backend "pipe";
  uses_dtach = false;
  runtime_id = r.runtime_id;
  signature = none;
  app_id = r.app_id;
  parent_shell_id = r.parent_shell_id;
  is_app_worker = r.is_app_worker;
  capabilities = r.capabilities;
}

-- what a manager can do with a shell that it did not start
unfoldable pub adopted_capabilities : Capabilities → Capabilities
adopted_capabilities c = record c {
  stdin_write = false;
  stdin_eof = false;
  stdout_subscribe = false;
  stderr_subscribe = false;
  output_read = false;
  terminate = false;
  resize = false;
}

module _ (host : Host) where
  abbrev pub seconds_to_ms : Option ℕ → ℕ
  seconds_to_ms none = 0
  seconds_to_ms (some v) = if host.is_positive v then host.to_ms v else 0

  unfoldable pub coerce_ms_timestamp : ℕ → Option ℕ → ℕ
  coerce_ms_timestamp raw_ms raw_seconds =
      if not (raw_ms == 0) then raw_ms else seconds_to_ms raw_seconds

  -- `json_object_to_string_map`
  unfoldable pub json_object_to_string_map : List (String × Value) → List (String × String)
  json_object_to_string_map [] = []
  json_object_to_string_map ((k, v) ∷ m) =
      let rest = json_object_to_string_map m in
      elim v [
        | string s ↦ (k, s) ∷ rest
        | number n ↦ (k, host.print_number n) ∷ rest
        | bool b ↦ (k, if b then "true" else "false") ∷ rest
        | null ↦ (k, "") ∷ rest
        | array xs ↦ rest
        | object fs ↦ rest
      ]

  abbrev pub log_or_sibling : Option String → String → String → String → String
  log_or_sibling log path id suffix =
      unwrap_or log (unwrap_or (host.sibling_log path id suffix) (concat id (concat "." suffix)))

  -- a running record whose process is gone is read as exited
  unfoldable pub observed_status : ℕ → Option Status → Status
  observed_status pid status =
      let written = unwrap_or status exited in
      if is_running written && not (host.pid_is_live pid) then exited else written

  -- `load_persisted_record`, from the record at `path`
  unfoldable pub from_persisted : String → PersistedRecord → ShellRecord
  from_persisted path p =
      let label = unwrap_or p.label p.id in
      let pid = unwrap_or p.pid 0 in
      record {
        id = p.id;
        backend = unwrap_or p.backend (infer_backend_from_flags p.uses_pty p.uses_pipes);
        command = p.command;
        cwd = p.cwd;
        env = [];
        env_keys = p.env_keys;
        env_overrides = json_object_to_string_map p.env_overrides;
        pid = pid;
        status = observed_status pid p.status;
        exit_code = p.exit_code;
        label = label;
        spec_id = unwrap_or p.spec_id p.id;
        subgroups = p.subgroups;
        record_path = unwrap_or p.record_path path;
        stdout_log = log_or_sibling p.stdout_log path p.id "stdout.log";
        stderr_log = log_or_sibling p.stderr_log path p.id "stderr.log";
        io_metadata_log = p.io_metadata_log;
        pty_mode = p.pty_mode;
        autostart = p.autostart;
        ui = p.ui;
        debug = p.debug;
        log_codecs = p.log_codecs;
        runtime_id = p.runtime_id;
        app_id = or_else p.app_id (derive_app_id label p.subgroups);
        parent_shell_id = p.parent_shell_id;
        is_app_worker = p.is_app_worker || derive_is_app_worker label p.subgroups;
        capabilities = adopted_capabilities p.capabilities;
        adopted = true;
        created_at_ms = coerce_ms_timestamp p.created_at_ms p.created_at;
        updated_at_ms = coerce_ms_timestamp p.updated_at_ms p.updated_at;
      }
