-- ===== src/Manager/Runs.antt =====
-- The manager (src/native_runtime.rs) as a state machine: one step is one operation, whatever its outcome.
use ferrous_framework.Base.{ℕ, ◌≡◌, sym, ap, ◌∙◌, String, Bool, Option, none, some, List, [], arith}
use ferrous_framework.Base.Action.{state_of}
use ferrous_framework.Base.Assoc.{lookup}
use ferrous_framework.Shell.Record.{PtyMode, ShellRecord}
use ferrous_framework.Shell.Persist.{Host}
use ferrous_framework.Manager.Defs.{Store, Manager, Io, mark_record_exited}
use ferrous_framework.Manager.Spawn.{Config, Metadata, SpawnIo, spawn_proc, spawn_pipe, spawn_pty}
use ferrous_framework.Manager.Access.{
  write_blocking, write_to_shell, send_stdin_eof, send_shell_eof,
}
use ferrous_framework.Manager.Terminate.{KillIo, terminate_shell, terminate_shell_strict}
use ferrous_framework.Manager.Reactor.{ReactorChild, Polled, check_reactor_children}
use ferrous_framework.Manager.Valid.{IsValid, Later, Moves, Moves-refl, Moves-trans}
use ferrous_framework.Manager.Moves.{
  mark_record_exited-Moves, write_blocking-Moves, send_stdin_eof-Moves, write_to_shell-Moves,
  send_shell_eof-Moves,
}
use ferrous_framework.Manager.Ends.{
  terminate_shell-Moves, terminate_shell_strict-Moves, check_reactor_children-Moves,
}
use ferrous_framework.ShellSpec.Entry.{ShellSpec}
use ferrous_framework.Manager.Apply.{
  Launch, LaunchOverrides, spawn_rendered_shellspec, apply_rendered_shellspecs,
}
use ferrous_framework.Manager.Applied.{FreshLaunches}
use ferrous_framework.Manager.Launched.{spawn_rendered-Moves, apply_rendered_shellspecs-Moves}
use ferrous_framework.Manager.Starts.{IsFresh, spawn_proc-Moves, spawn_pipe-Moves, spawn_pty-Moves}

-- a call with any answers of the system
pub data Step (host : Host) (store : Store) : Manager → Manager → Type 0 where
  proc_spawned :
      (s : SpawnIo) (c : Config) (meta : Metadata) (m : Manager)
      → Step host store m (state_of (spawn_proc host store s c meta m))
  pipe_spawned :
      (s : SpawnIo) (c : Config) (meta : Metadata) (m : Manager)
      → Step host store m (state_of (spawn_pipe host store s c meta m))
  pty_spawned :
      (s : SpawnIo) (master : ℕ) (mode : PtyMode) (c : Config) (meta : Metadata) (m : Manager)
      → Step host store m (state_of (spawn_pty host store s master mode c meta m))
  input_written :
      (accepts : Option ℕ) (shell_id : String) (bytes : List ℕ) (append_newline : Bool)
      (m : Manager)
      → Step host store m (state_of (write_to_shell accepts shell_id bytes append_newline m))
  bytes_written :
      (accepts : Option ℕ) (shell_id : String) (bytes : List ℕ) (m : Manager)
      → Step host store m (state_of (write_blocking accepts shell_id bytes m))
  stdin_ended :
      (io : Io) (shell_id : String) (m : Manager)
      → Step host store m (state_of (send_stdin_eof host io shell_id m))
  rendered_spawned :
      (launch : Launch) (spec : ShellSpec) (log_dir : Option String) (o : LaunchOverrides)
      (m : Manager)
      → Step host store m (state_of (spawn_rendered_shellspec host store launch spec log_dir o m))
  specs_applied :
      (launches : ℕ → Launch) (kill : KillIo) (specs : List ShellSpec) (prune : Bool) (m : Manager)
      → Step host store m
          (state_of (apply_rendered_shellspecs host store launches kill specs prune m))
  ended :
      (k : KillIo) (shell_id : String) (m : Manager)
      → Step host store m (state_of (terminate_shell host store k shell_id m))
  eof_sent :
      (io : Io) (shell_id : String) (m : Manager)
      → Step host store m (state_of (send_shell_eof host io shell_id m))
  terminated :
      (k : KillIo) (shell_id : String) (m : Manager)
      → Step host store m (state_of (terminate_shell_strict host store k shell_id m))
  marked :
      (io : Io) (shell : ShellRecord) (code : Option ℕ) (m : Manager)
      → Step host store m (state_of (mark_record_exited host io shell code m))
  reaped :
      (poll : ℕ → Polled) (io : ℕ → Io) (children rest : List ReactorChild) (m m' : Manager)
      → check_reactor_children host poll io children m ≡ some (rest, m')
      → Step host store m m'

pub data Run (host : Host) (store : Store) : Manager → Manager → Type 0 where
  stop : (m : Manager) → Run host store m m
  step : {m m₁ m₂ : Manager} → Step host store m m₁ → Run host store m₁ m₂ → Run host store m m₂

module _ (host : Host) (store : Store) where
  -- the id that a spawn takes is not that of a shell of the manager
  unfoldable pub TakesFreshId : {m m' : Manager} → Step host store m m' → Type 0
  TakesFreshId (proc_spawned s c meta m) = IsFresh s m
  TakesFreshId (pipe_spawned s c meta m) = IsFresh s m
  TakesFreshId (pty_spawned s master mode c meta m) = IsFresh s m
  TakesFreshId (input_written accepts shell_id bytes append_newline m) = Unit
  TakesFreshId (bytes_written accepts shell_id bytes m) = Unit
  TakesFreshId (stdin_ended io shell_id m) = Unit
  TakesFreshId (rendered_spawned launch spec log_dir o m) = IsFresh launch.spawn_io m
  TakesFreshId (specs_applied launches kill specs prune m) =
      FreshLaunches host store launches 0 specs m
  TakesFreshId (ended k shell_id m) = Unit
  TakesFreshId (eof_sent io shell_id m) = Unit
  TakesFreshId (terminated k shell_id m) = Unit
  TakesFreshId (marked io shell code m) = Unit
  TakesFreshId (reaped poll io children rest m m' e) = Unit

  unfoldable pub HasFreshIds : {m m' : Manager} → Run host store m m' → Type 0
  unfolding TakesFreshId
  HasFreshIds (stop m) = Unit
  HasFreshIds (step s r) = TakesFreshId s × HasFreshIds r

  Step-Moves : {m m' : Manager} (s : Step host store m m') → TakesFreshId s → Moves store m m'
  unfolding TakesFreshId
  Step-Moves (proc_spawned s c meta m) fresh = spawn_proc-Moves host store s c meta m fresh
  Step-Moves (pipe_spawned s c meta m) fresh = spawn_pipe-Moves host store s c meta m fresh
  Step-Moves (pty_spawned s master mode c meta m) fresh =
      spawn_pty-Moves host store s c meta master mode m fresh
  Step-Moves (input_written accepts shell_id bytes append_newline m) fresh =
      write_to_shell-Moves store accepts shell_id bytes append_newline m
  Step-Moves (bytes_written accepts shell_id bytes m) fresh =
      write_blocking-Moves store accepts shell_id bytes m
  Step-Moves (stdin_ended io shell_id m) fresh = send_stdin_eof-Moves store host io shell_id m
  Step-Moves (rendered_spawned launch spec log_dir o m) fresh =
      spawn_rendered-Moves host store launch spec log_dir o m fresh
  Step-Moves (specs_applied launches kill specs prune m) fresh =
      apply_rendered_shellspecs-Moves host store launches kill specs prune m fresh
  Step-Moves (ended k shell_id m) fresh = terminate_shell-Moves host store k shell_id m
  Step-Moves (eof_sent io shell_id m) fresh = send_shell_eof-Moves store host io shell_id m
  Step-Moves (terminated k shell_id m) fresh = terminate_shell_strict-Moves host store k shell_id m
  Step-Moves (marked io shell code m) fresh = mark_record_exited-Moves store host io shell code m
  Step-Moves (reaped poll io children rest m m' e) fresh =
      check_reactor_children-Moves host store poll io children rest m m' e

  Run-Moves : {m m' : Manager} (r : Run host store m m') → HasFreshIds r → Moves store m m'
  unfolding HasFreshIds
  Run-Moves (stop m) fresh = Moves-refl store m
  Run-Moves (step {m} {m₁} {m₂} s r) fresh =
      Moves-trans store m m₁ m₂ (Step-Moves s fresh.0) (Run-Moves r fresh.1)

  empty-IsValid : (m : Manager) → m.entries ≡ [] → IsValid store m.entries
  unfolding lookup
  empty-IsValid m empty shell_id e at =
      let there : none ≡ some e = ap (lookup shell_id) (sym empty) ∙ at in absurd (ground arith)

  -- From a manager without shells, every run of its operations with whatever answers of the
  -- system, in which a spawn never takes the id of a shell that the manager has, ends in a state
  -- where each entry has its own id, its record path is the one of that id, and a capability to
  -- write, to end the input or to resize stands only where the entry has the stream for it.
  pub Run-IsValid :
      (m m' : Manager) (r : Run host store m m')
      → m.entries ≡ []
      → HasFreshIds r
      → IsValid store m'.entries
  Run-IsValid m m' r empty fresh = (Run-Moves r fresh (empty-IsValid m empty)).0

  -- After any state that a manager reaches from one without shells, and along any further run,
  -- where spawns take fresh ids in both, every entry stays: its process id, child, command, output
  -- log and creation time do not change, once it is not running it never runs again, and once its
  -- input is closed it never has one again.
  pub Run-Later :
      (m m₁ m₂ : Manager) (before : Run host store m m₁) (after : Run host store m₁ m₂)
      → m.entries ≡ []
      → HasFreshIds before
      → HasFreshIds after
      → Later m₁.entries m₂.entries
  Run-Later m m₁ m₂ before after empty fresh fresh₁ =
      (Run-Moves after fresh₁ (Run-IsValid m m₁ before empty fresh)).1
