-- ===== src/Manager/Terminate.antt =====
-- `terminate_shell_blocking`, `terminate_persisted_shell_blocking` and `terminate_shell_strict_blocking` of
-- src/native_runtime.rs.
use ferrous_framework.Base.{
  ℕ, String, Bool, true, false, not, Option, none, some, [], ◌∷◌, ◌++◌, ok, err, ensure,
  if◌then◌else◌,
}
use ferrous_framework.Base.Action.{continue, lift, ◌>>=◌}
use ferrous_framework.Base.Assoc.{lookup}
use ferrous_framework.Shell.Record.{is_running, ShellRecord}
use ferrous_framework.Shell.Persist.{Host}
use ferrous_framework.Shutdown.Defs.{Signalled, delivered, missing, failed}
use ferrous_framework.Manager.Defs.{
  not_live, not_waited, not_signalled, still_alive, Store, Io, M, get_shell, mark_record_exited,
}

-- what `try_wait` says of a child: its exit code is `none` if a signal ended it
pub data Waited : Type 0 where
  alive wait_failed : Waited
  ended : Option ℕ → Waited

-- The answers of the operating system: for a child of the manager, whether it ended and whether it can be
-- killed; for another process, whether it lives before and after the signal, and how the signal went.
pub record KillIo : Type 0 where
  pub io : Io
  pub try_wait : ℕ → Waited
  pub can_kill : Bool
  pub live_before : ℕ → Bool
  pub signal : ℕ → Signalled
  pub live_after : ℕ → Bool

-- `-libc::SIGKILL` as the bit pattern of an i32
abbrev pub sigkill_code : ℕ
sigkill_code = 4294967287

module _ (host : Host) (store : Store) (k : KillIo) where
  abbrev pub kill_child : ℕ → Waited → M Bool
  kill_child child alive m =
      if k.can_kill
      then (ok true, record m { killed = m.killed ++ child ∷ [] })
      else (err not_signalled, m)
  kill_child child (ended code) m = (ok true, m)
  kill_child child wait_failed m = (err not_waited, m)

  abbrev pub exited_with : ShellRecord → Option ℕ → M Bool
  exited_with shell code m =
      continue (mark_record_exited host k.io shell code m) (λ _ m'. (ok true, m'))

  -- from the last liveness test on
  abbrev pub after_signal : ShellRecord → M Bool
  after_signal shell m =
      if k.live_after shell.pid
      then (err still_alive, m)
      else exited_with shell (some sigkill_code) m

  abbrev pub signal_process : ShellRecord → Signalled → M Bool
  signal_process shell delivered m = after_signal shell m
  signal_process shell missing m = after_signal shell m
  signal_process shell failed m = (err not_signalled, m)

  abbrev pub end_process : ShellRecord → M Bool
  end_process shell m =
      if not (is_running shell.status)
      then (ok true, m)
      else if not (k.live_before shell.pid)
      then exited_with shell none m
      else signal_process shell (k.signal shell.pid) m

  unfoldable pub terminate_persisted_shell : String → M Bool
  unfolding get_shell mark_record_exited
  terminate_persisted_shell shell_id m = elim (get_shell host store shell_id m) [
    | none ↦ (ok false, m)
    | some shell ↦ end_process shell m
  ]

  unfoldable pub terminate_shell : String → M Bool
  unfolding terminate_persisted_shell
  terminate_shell shell_id m = elim (lookup shell_id m.entries) [
    | none ↦ terminate_persisted_shell shell_id m
    | some e ↦
        if not (is_running e.shell.status)
        then (ok true, m)
        else kill_child e.child (k.try_wait e.child) m
  ]

  unfoldable pub terminate_shell_strict : String → M (Unit {0})
  unfolding terminate_shell
  terminate_shell_strict shell_id = do
    found ← terminate_shell shell_id
    lift (ensure found not_live)
