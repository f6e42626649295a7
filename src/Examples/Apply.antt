-- ===== src/Examples/Apply.antt =====
-- A specification that is applied twice, as src/native_runtime.rs does it.
use ferrous_framework.Base.{ℕ, true, false, none, some, [], ◌∷◌}
use ferrous_framework.Base.Action.{state_of}
use ferrous_framework.Shell.Record.{ShellRecord}
use ferrous_framework.ShellSpec.Entry.{ShellSpec}
use ferrous_framework.Json.{end}
use ferrous_framework.Examples.Shell.{host}
use ferrous_framework.Examples.Manager.{store, system, empty, answers}
use ferrous_framework.Manager.Defs.{Manager}
use ferrous_framework.Manager.Spawn.{pipe_capabilities, new_record}
use ferrous_framework.Manager.Apply.{
  Launch, no_overrides, config_of, metadata_of, apply_rendered_shellspecs,
}

abbrev cat : ShellSpec
cat = record {
  id = "cat";
  backend = "pipe";
  command = "cat" ∷ [];
  cwd = none;
  env = [];
  subgroups = [];
  ui = end;
  debug = end;
  log_codecs = end;
  pty_mode = "raw";
  autostart = true;
  readiness = none;
}

abbrev launches : ℕ → Launch
launches n = record {
  spawn_io = system;
  master = 20;
  is_ready = λ _ _. some true;
  kill_io = answers;
}

abbrev applied : Manager
applied = state_of (apply_rendered_shellspecs host store launches answers (cat ∷ []) false empty)

abbrev cat_shell : ShellRecord
cat_shell =
    new_record host store system "pipe" "/log" "s1" none (pipe_capabilities (some 11))
      (config_of cat none no_overrides) (metadata_of cat no_overrides)
      (record { handle = 10; pid = 42; stdin = some 11; stdout = some 12; resize = 13 })
