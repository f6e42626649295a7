-- ===== src/Examples/Shell.antt =====
-- A worker's record of src/native_runtime.rs.
use ferrous_framework.Base.{refl, str_eq, if◌then◌else◌, true, false, ◌==◌, not, none, [], ◌∷◌}
use ferrous_framework.Shell.Record.{running, Capabilities, ShellRecord}
use ferrous_framework.Shell.Persist.{Host}
use ferrous_framework.Shell.Adopt.{ZeroIsZero}

abbrev pub host : Host
host = record {
  process_id = 100;
  pid_is_live = λ pid. pid == 42;
  to_seconds = λ ms. ms;
  is_positive = λ v. not (v == 0);
  to_ms = λ v. v;
  sibling_log = λ _ _ _. none;
  print_number = λ _. "0";
  path_to_string = λ path. if str_eq path "/log/w-1.x.log" then "/log/w-1.?.log" else path;
}

abbrev pub all_of_them : Capabilities
all_of_them = record {
  stdin_write = true;
  stdin_eof = true;
  stdout_log = true;
  stderr_log = true;
  stdout_subscribe = true;
  stderr_subscribe = true;
  output_read = true;
  terminate = true;
  resize = false;
}

abbrev pub worker : ShellRecord
worker = record {
  id = "w-1";
  backend = "pipe";
  command = "run" ∷ [];
  cwd = none;
  env = ("PATH", "/bin") ∷ ("FRAMEWORK_SHELLS_RUN_ID", "r") ∷ [];
  env_keys = "PATH" ∷ [];
  env_overrides = ("A", "b") ∷ [];
  pid = 41;
  status = running;
  exit_code = none;
  label = "app-worker:demo";
  spec_id = "w";
  subgroups = [];
  record_path = "/run/w-1/meta.json";
  stdout_log = "/log/w-1.stdout.log";
  stderr_log = "/log/w-1.x.log";
  io_metadata_log = none;
  pty_mode = none;
  autostart = false;
  ui = [];
  debug = [];
  log_codecs = [];
  runtime_id = none;
  app_id = none;
  parent_shell_id = none;
  is_app_worker = false;
  capabilities = all_of_them;
  adopted = false;
  created_at_ms = 5;
  updated_at_ms = 0;
}

pub host-ZeroIsZero : ZeroIsZero host
host-ZeroIsZero = record { zero_seconds = refl }
