-- ===== src/Manager/Spawn.antt =====
-- `spawn_proc_with_metadata_blocking`, `spawn_pipe_with_metadata_blocking` and
-- `spawn_pty_with_metadata_blocking` of src/native_runtime.rs, with `next_shell_id`, `merged_child_env` and
-- `insert_entry`.
use ferrous_framework.Base.{
  ℕ, ◌+◌, ◌%◌, ◌^◌, String, Bool, true, false, Option, none, some, List, [], ◌∷◌, Result, ok, err,
  ok_or, ensure, if◌then◌else◌,
}
use ferrous_framework.Base.Action.{continue, lift, ◌>>=◌, ◌>>◌}
use ferrous_framework.Base.Assoc.{put}
use ferrous_framework.Json.{Value}
use ferrous_framework.LogProjection.Pointer.{concat, str_lt}
use ferrous_framework.Shell.Record.{running, PtyMode, Capabilities, ShellRecord}
use ferrous_framework.Shell.Names.{derive_app_id, derive_is_app_worker}
use ferrous_framework.Shell.Persist.{Host}
use ferrous_framework.Manager.Defs.{
  Error, empty_command, bad_log_dir, not_spawned, not_registered, spawned, Entry, Store, Manager,
  Io, M, record_path_for, persist_record, publish_lifecycle,
}

-- `FerrousNativeProcConfig`, `FerrousNativePipeConfig`, and `FerrousNativePtyConfig` without its mode
pub record Config : Type 0 where
  pub command : List String
  pub cwd : Option String
  pub env : List (String × String)
  pub label : String
  pub spec_id : String
  pub subgroups : List String
  pub log_dir : Option String

-- `SpawnRecordMetadata`
pub record Metadata : Type 0 where
  pub env_overrides : List (String × String)
  pub ui : List (String × Value)
  pub debug : List (String × Value)
  pub log_codecs : List (String × Value)
  pub parent_shell_id : Option String

-- a child that was started, with the handles of its streams
pub record Child : Type 0 where
  pub handle : ℕ
  pub pid : ℕ
  pub stdin : Option ℕ
  pub stdout : Option ℕ
  pub resize : ℕ

-- What a spawn takes from elsewhere. `log_dir` is the directory once it is resolved and created; `shell_id`
-- prints the id for the two counters; `child` is the process, if the log files could be opened and the process
-- started; `registered` and `watched` say whether the reactor takes its streams and the child.
pub record SpawnIo : Type 0 where
  pub io : Io
  pub log_dir : Option String → Option String
  pub shell_id : ℕ → ℕ → String
  pub global_id : ℕ
  pub overlay : List (String × String)
  pub child : Option Child
  pub registered : Bool
  pub watched : Bool

-- `extend`
unfoldable pub extend_env : List (String × String) → List (String × String) → List (String × String)
unfolding put
extend_env env [] = env
extend_env env ((k, v) ∷ more) = extend_env (put k v env) more

-- `merged_child_env`
unfoldable pub merged_child_env : SpawnIo → List (String × String) → List (String × String)
unfolding extend_env
merged_child_env s explicit_env = extend_env s.overlay explicit_env

unfoldable pub insert_key : String → List String → List String
unfolding str_lt
insert_key k [] = k ∷ []
insert_key k (j ∷ js) = let later = insert_key k js in if str_lt j k then j ∷ later else k ∷ j ∷ js

-- `sorted_env_keys`
unfoldable pub sorted_env_keys : List (String × String) → List String
unfolding insert_key
sorted_env_keys [] = []
sorted_env_keys ((k, v) ∷ env) = insert_key k (sorted_env_keys env)

-- `validate_command`
unfoldable pub validate_command : List String → Result Error (Unit {0})
validate_command [] = err empty_command
validate_command (program ∷ args) = ok tt

-- `next_shell_id`
unfoldable pub next_shell_id : SpawnIo → M String
next_shell_id s m =
    let next = (m.next_id + 1) % 2 ^ 64 in
    (ok (s.shell_id s.global_id next), record m { next_id = next })

-- the capabilities that the three backends give to a new shell
abbrev pub proc_capabilities : Capabilities
proc_capabilities = record {
  stdin_write = false;
  stdin_eof = false;
  stdout_log = true;
  stderr_log = true;
  stdout_subscribe = true;
  stderr_subscribe = true;
  output_read = false;
  terminate = true;
  resize = false;
}

abbrev pub is_some {ℓ} : {A : Type ℓ} → Option A → Bool
is_some none = false
is_some (some a) = true

abbrev pub pipe_capabilities : Option ℕ → Capabilities
pipe_capabilities input = record {
  stdin_write = is_some input;
  stdin_eof = is_some input;
  stdout_log = true;
  stderr_log = true;
  stdout_subscribe = true;
  stderr_subscribe = true;
  output_read = true;
  terminate = true;
  resize = false;
}

abbrev pub pty_capabilities : Capabilities
pty_capabilities = record {
  stdin_write = true;
  stdin_eof = true;
  stdout_log = true;
  stderr_log = false;
  stdout_subscribe = true;
  stderr_subscribe = false;
  output_read = true;
  terminate = true;
  resize = true;
}

module _ (host : Host) (store : Store) (s : SpawnIo) where
  abbrev pub log_file : String → String → String → String
  log_file log_dir shell_id suffix = store.join log_dir (concat shell_id suffix)

  -- the record of a new shell
  unfoldable pub new_record :
      String
      → String
      → String
      → Option PtyMode
      → Capabilities
      → Config
      → Metadata
      → Child
      → ShellRecord
  unfolding concat merged_child_env sorted_env_keys
  new_record backend log_dir shell_id pty_mode capabilities c meta child =
      let env = merged_child_env s c.env in
      record {
        id = shell_id;
        backend = backend;
        command = c.command;
        cwd = c.cwd;
        env = env;
        env_keys = sorted_env_keys env;
        env_overrides = meta.env_overrides;
        pid = child.pid;
        status = running;
        exit_code = none;
        label = c.label;
        spec_id = c.spec_id;
        subgroups = c.subgroups;
        record_path = record_path_for store shell_id;
        stdout_log = log_file log_dir shell_id ".stdout.log";
        stderr_log = log_file log_dir shell_id ".stderr.log";
        io_metadata_log = some (log_file log_dir shell_id ".io_metadata.jsonl");
        pty_mode = pty_mode;
        autostart = true;
        ui = meta.ui;
        debug = meta.debug;
        log_codecs = meta.log_codecs;
        runtime_id = some store.runtime_id;
        app_id = derive_app_id c.label c.subgroups;
        parent_shell_id = meta.parent_shell_id;
        is_app_worker = derive_is_app_worker c.label c.subgroups;
        capabilities = capabilities;
        adopted = false;
        created_at_ms = s.io.now;
        updated_at_ms = s.io.now;
      }

  -- `insert_entry`
  unfoldable pub insert_entry : Entry → Manager → Manager
  insert_entry e m = record m { entries = put e.shell.id e m.entries }

  -- `watch_child(..)?`, the event and the result
  abbrev pub watch_and_publish : ShellRecord → M ShellRecord
  watch_and_publish shell m =
      if s.watched then (ok shell, publish_lifecycle spawned shell m) else (err not_registered, m)

  -- the end of a spawn, from `persist_record` on
  unfoldable pub install : Entry → M ShellRecord
  unfolding persist_record publish_lifecycle insert_entry
  install e m =
      continue (persist_record host s.io e.shell e.record_path m)
        λ _ m'. watch_and_publish e.shell (insert_entry e m')

  -- The start of a spawn: the command, the log directory and the id. `go` is the rest, with the id, the
  -- directory and the child.
  unfoldable pub begin : Config → (String → String → Child → M ShellRecord) → M ShellRecord
  begin c go = do
    lift (validate_command c.command)
    log_dir ← lift (ok_or (s.log_dir c.log_dir) bad_log_dir)
    shell_id ← next_shell_id s
    child ← lift (ok_or s.child not_spawned)
    go shell_id log_dir child

  -- the entry of a new shell
  abbrev pub new_entry :
      String
      → String
      → String
      → Option PtyMode
      → Capabilities
      → Config
      → Metadata
      → Child
      → Option ℕ
      → Option ℕ
      → Option ℕ
      → Entry
  new_entry backend log_dir shell_id pty_mode capabilities c meta child input output resize =
      record {
        shell = new_record backend log_dir shell_id pty_mode capabilities c meta child;
        record_path = record_path_for store shell_id;
        child = child.handle;
        input = input;
        output = output;
        resize = resize;
      }

  abbrev pub add_proc : Config → Metadata → String → String → Child → M ShellRecord
  add_proc c meta shell_id log_dir child m =
      continue (lift (ensure s.registered not_registered) m) λ _.
        install
          (new_entry "proc" log_dir shell_id none proc_capabilities c meta child none none none)

  unfoldable pub spawn_proc : Config → Metadata → M ShellRecord
  unfolding begin install new_record validate_command next_shell_id
  spawn_proc c meta = begin c (add_proc c meta)

  abbrev pub add_pipe_output : Config → Metadata → String → String → Child → ℕ → M ShellRecord
  add_pipe_output c meta shell_id log_dir child stdout m =
      continue (lift (ensure s.registered not_registered) m) λ _. install (
        new_entry "pipe" log_dir shell_id none (pipe_capabilities child.stdin) c meta child
          child.stdin (some stdout) none)

  -- the stdout of a pipe is taken, or the spawn fails
  abbrev pub add_pipe : Config → Metadata → String → String → Child → M ShellRecord
  add_pipe c meta shell_id log_dir child m =
      continue (lift (ok_or child.stdout not_spawned) m)
        (add_pipe_output c meta shell_id log_dir child)

  unfoldable pub spawn_pipe : Config → Metadata → M ShellRecord
  unfolding begin install new_record validate_command next_shell_id
  spawn_pipe c meta = begin c (add_pipe c meta)

  -- `master` is the side of the pseudoterminal that the manager keeps, for the input and the output
  abbrev pub add_pty : ℕ → PtyMode → Config → Metadata → String → String → Child → M ShellRecord
  add_pty master mode c meta shell_id log_dir child = install (
      new_entry "pty" log_dir shell_id (some mode) pty_capabilities c meta child (some master)
        (some master) (some child.resize))

  unfoldable pub spawn_pty : ℕ → PtyMode → Config → Metadata → M ShellRecord
  unfolding begin install new_record validate_command next_shell_id
  spawn_pty master mode c meta = begin c (add_pty master mode c meta)
