-- ===== src/Examples/Manager.antt =====
-- A manager of src/native_runtime.rs that starts a pipe, writes to it, closes its input and reaps its child.
use ferrous_framework.Base.{
  ℕ, ◌≡◌, refl, sym, str_eq, true, false, ◌==◌, none, some, ok, List, [], ◌∷◌, if◌then◌else◌,
}
use mathlib.Core.List.{Perm}
use mathlib.Core.Option.{some-injective}
use ferrous_framework.Base.Action.{state_of}
use ferrous_framework.Base.Assoc.{lookup}
use ferrous_framework.Shell.Record.{ShellRecord}
use ferrous_framework.Shell.Persist.{to_persisted, from_persisted, observed_status}
use ferrous_framework.Shutdown.Defs.{delivered}
use ferrous_framework.Examples.Shell.{host, host-ZeroIsZero}
use ferrous_framework.Manager.Defs.{Entry, Store, Manager, Io, get_shell}
use ferrous_framework.Manager.Spawn.{
  Config, Metadata, SpawnIo, pipe_capabilities, new_record, spawn_pipe,
}
use ferrous_framework.Manager.Access.{InputResult, write_to_shell, send_stdin_eof, send_shell_eof}
use ferrous_framework.Manager.Terminate.{alive, KillIo, terminate_shell_strict}
use ferrous_framework.Manager.Reactor.{ReactorChild, Polled, ended, check_reactor_children}
use ferrous_framework.Manager.Reactor as Reactor
use ferrous_framework.Manager.Reaped.{survivors, note_exits, check_reactor_children-survivors}
use ferrous_framework.Manager.Valid.{IsValid, Later}
use ferrous_framework.Manager.Runs.{
  pipe_spawned, eof_sent, Run, stop, step, HasFreshIds, Run-IsValid, Run-Later,
}
use ferrous_framework.Manager.Published.{IsPublished, spawn_pipe-IsPublished}
use ferrous_framework.Manager.Closed.{
  IsClosed, Written, send_stdin_eof-IsClosed, write_to_shell-Written,
}
use ferrous_framework.Manager.Ended.{IsEnded, IsPlaced, terminate_persisted_shell-IsEnded}

abbrev pub store : Store
store = record {
  runtime_id = "r";
  logs_dir = "/log";
  metadata_dir = "/meta";
  join = λ dir name. if str_eq name "meta.json" then "/meta/s1/meta.json" else dir;
}

abbrev io : Io
io = record { now = 7; writable = true }

abbrev pub system : SpawnIo
system = record {
  io = io;
  log_dir = λ _. some "/log";
  shell_id = λ global next. if next == 1 then "s1" else "s2";
  global_id = 4;
  overlay = ("PATH", "/bin") ∷ [];
  child = some (record { handle = 10; pid = 42; stdin = some 11; stdout = some 12; resize = 13 });
  registered = true;
  watched = true;
}

abbrev config : Config
config = record {
  command = "cat" ∷ [];
  cwd = none;
  env = [];
  label = "cat";
  spec_id = "cat";
  subgroups = [];
  log_dir = none;
}

abbrev metadata : Metadata
metadata = record {
  env_overrides = [];
  ui = [];
  debug = [];
  log_codecs = [];
  parent_shell_id = none;
}

abbrev pub empty : Manager
empty = record { next_id = 0; entries = []; disk = []; lifecycle = []; written = []; killed = [] }

abbrev started : Manager
started = state_of (spawn_pipe host store system config metadata empty)

abbrev started_shell : ShellRecord
started_shell =
    new_record host store system "pipe" "/log" "s1" none (pipe_capabilities (some 11)) config
      metadata (record { handle = 10; pid = 42; stdin = some 11; stdout = some 12; resize = 13 })

spawn_pipe-IsPublished_example : IsPublished host store started_shell started
unfolding spawn_pipe
spawn_pipe-IsPublished_example =
    spawn_pipe-IsPublished host store system config metadata empty started started_shell
      host-ZeroIsZero refl

-- the pipe is started and its input is closed
abbrev closed : Manager
closed = state_of (send_shell_eof host io "s1" started)

abbrev first_run : Run host store empty started
first_run = step (pipe_spawned system config metadata empty) (stop started)

abbrev second_run : Run host store started closed
second_run = step (eof_sent io "s1" started) (stop closed)

first_run-HasFreshIds : HasFreshIds host store first_run
unfolding HasFreshIds lookup
first_run-HasFreshIds = (refl, tt)

second_run-HasFreshIds : HasFreshIds host store second_run
unfolding HasFreshIds
second_run-HasFreshIds = (tt, tt)

Run-IsValid_example : IsValid store started.entries
Run-IsValid_example = Run-IsValid host store empty started first_run refl first_run-HasFreshIds

Run-Later_example : Later started.entries closed.entries
Run-Later_example =
    Run-Later host store empty started closed first_run second_run refl first_run-HasFreshIds
      second_run-HasFreshIds

abbrev started_entry : Entry
started_entry = record {
  shell = started_shell;
  record_path = "/meta/s1/meta.json";
  child = 10;
  input = some 11;
  output = some 12;
  resize = none;
}

send_stdin_eof-IsClosed_example :
    IsClosed host "s1" (state_of (send_stdin_eof host io "s1" started))
unfolding spawn_pipe lookup
send_stdin_eof-IsClosed_example = send_stdin_eof-IsClosed host "s1" io started started_entry refl

abbrev written : Manager
written = record started { written = (11, 104 ∷ 105 ∷ 10 ∷ []) ∷ [] }

abbrev answer : InputResult
answer = record {
  shell_id = "s1";
  backend = "pipe";
  accepted = true;
  bytes_written = 3;
  newline_appended = true;
  eof_sent = false;
}

write_to_shell_run : write_to_shell none "s1" (104 ∷ 105 ∷ []) true started ≡ (ok answer, written)
unfolding spawn_pipe write_to_shell
write_to_shell_run = refl

write_to_shell-Written_example :
    Written none "s1"
      (104 ∷ 105 ∷ [])
      true
      started
      (write_to_shell none "s1" (104 ∷ 105 ∷ []) true started)
write_to_shell-Written_example = write_to_shell-Written none "s1" (104 ∷ 105 ∷ []) true started

-- Another manager has only the disk; process 42 lives, until a signal comes.
abbrev other : Manager
other = record {
  next_id = 0;
  entries = [];
  disk = started.disk;
  lifecycle = [];
  written = [];
  killed = [];
}

abbrev pub answers : KillIo
answers = record {
  io = io;
  try_wait = λ _. alive;
  can_kill = true;
  live_before = λ _. true;
  signal = λ _. delivered;
  live_after = λ _. false;
}

other-IsPlaced :
    (shell : ShellRecord) → get_shell host store "s1" other ≡ some shell → IsPlaced store "s1" shell
unfolding get_shell spawn_pipe from_persisted to_persisted
other-IsPlaced shell found =
    let read = from_persisted host "/meta/s1/meta.json" (to_persisted host started_shell) in
    let same : read ≡ shell = some-injective read shell found in
    rw (sym same) (record { named = refl; placed = refl })

terminate_persisted_shell-IsEnded_example :
    IsEnded host store "s1" (state_of (terminate_shell_strict host store answers "s1" other))
unfolding terminate_shell_strict spawn_pipe from_persisted observed_status to_persisted
terminate_persisted_shell-IsEnded_example =
    terminate_persisted_shell-IsEnded host store answers "s1" other
      (state_of (terminate_shell_strict host store answers "s1" other)) refl other-IsPlaced refl

-- of three children the first and the last ended
abbrev children : List ReactorChild
children =
    record { shell_id = "s1"; child = 10 }
    ∷ record { shell_id = "s2"; child = 20 }
    ∷ record { shell_id = "s3"; child = 30 }
    ∷ []

abbrev poll : ℕ → Polled
poll child = if child == 20 then Reactor.alive else ended (some 0)

check_reactor_children-survivors_example :
    (rest : List ReactorChild) × (check_reactor_children host poll (λ _. io) children started
      ≡ some (rest, note_exits host poll (λ _. io) 0 children started))
    × Perm rest (survivors poll children)
check_reactor_children-survivors_example =
    check_reactor_children-survivors host poll (λ _. io) children started
