-- ===== src/Manager/Ends.antt =====
-- The entries of the manager while shells start, end and are reaped (src/native_runtime.rs).
use ferrous_framework.Base.{
  ℕ, suc, ◌≡◌, refl, sym, ap, ◌++◌, ◌∙◌, String, true, Option, none, some, List, [], ◌∷◌, ok,
  ensure, inl, inr, Bool-cases, Option-cases,
}
use mathlib.Core.Option.{some-injective}
use ferrous_framework.Base.Action.{lift, state_of}
use ferrous_framework.Base.Assoc.{lookup}
use ferrous_framework.Shell.Record.{is_running, ShellRecord}
use ferrous_framework.Shell.Persist.{Host}
use ferrous_framework.Shutdown.Defs.{Signalled, delivered, missing, failed}
use ferrous_framework.Manager.Defs.{
  not_live, gone, Store, Manager, Io, persist_record, publish_lifecycle, exited_record, with_shell,
  mark_record_exited, get_shell,
}
use ferrous_framework.Manager.Terminate.{
  Waited, alive, wait_failed, ended, KillIo, sigkill_code, kill_child, exited_with, after_signal,
  signal_process, end_process, terminate_persisted_shell, terminate_shell, terminate_shell_strict,
}
use ferrous_framework.Manager.Reactor.{
  ReactorChild, Polled, code_of, note_exit, check_reactor_children,
}
use ferrous_framework.Manager.Reaped.{note_exits, check_reactor_children-survivors}
use ferrous_framework.Manager.Valid.{Moves, Moves-refl, Moves-trans, Moves-same, Moves-update}
use ferrous_framework.Manager.Moves.{
  continue-Moves, persist_record-same, mark_record_exited-Moves, exited-IsEntry, exited-Continues,
}

module _ (host : Host) (store : Store) (k : KillIo) where
  kill_child-Moves :
      (child : ℕ) (w : Waited) (m : Manager)
      → Moves store m (state_of (kill_child host store k child w m))
  kill_child-Moves child alive m = elim (Bool-cases k.can_kill) [
    | inl e ↦ rw e (Moves-same store m (record m { killed = m.killed ++ child ∷ [] }) refl)
    | inr e ↦ rw e (Moves-refl store m)
  ]
  kill_child-Moves child (ended code) m = Moves-refl store m
  kill_child-Moves child wait_failed m = Moves-refl store m

  exited_with-Moves :
      (shell : ShellRecord) (code : Option ℕ) (m : Manager)
      → Moves store m (state_of (exited_with host store k shell code m))
  exited_with-Moves shell code m =
      continue-Moves store m (mark_record_exited host k.io shell code m) (λ done m'. (ok true, m'))
        (mark_record_exited-Moves store host k.io shell code m) (λ done m₁. Moves-refl store m₁)

  after_signal-Moves :
      (shell : ShellRecord) (m : Manager)
      → Moves store m (state_of (after_signal host store k shell m))
  after_signal-Moves shell m = elim (Bool-cases (k.live_after shell.pid)) [
    | inl e ↦ rw e (Moves-refl store m)
    | inr e ↦ rw e (exited_with-Moves shell (some sigkill_code) m)
  ]

  signal_process-Moves :
      (shell : ShellRecord) (s : Signalled) (m : Manager)
      → Moves store m (state_of (signal_process host store k shell s m))
  signal_process-Moves shell delivered m = after_signal-Moves shell m
  signal_process-Moves shell missing m = after_signal-Moves shell m
  signal_process-Moves shell failed m = Moves-refl store m

  end_process-Moves :
      (shell : ShellRecord) (m : Manager)
      → Moves store m (state_of (end_process host store k shell m))
  end_process-Moves shell m = elim (Bool-cases (is_running shell.status)) [
    | inl e ↦ rw e (elim (Bool-cases (k.live_before shell.pid)) [
      | inl f ↦ rw f (signal_process-Moves shell (k.signal shell.pid) m)
      | inr f ↦ rw f (exited_with-Moves shell none m)
    ])
    | inr e ↦ rw e (Moves-refl store m)
  ]

  terminate_persisted_shell-Moves :
      (shell_id : String) (m : Manager)
      → Moves store m (state_of (terminate_persisted_shell host store k shell_id m))
  unfolding terminate_persisted_shell
  terminate_persisted_shell-Moves shell_id m =
      elim (Option-cases (get_shell host store shell_id m)) [
        | inl e ↦ rw (e, terminate_persisted_shell) (Moves-refl store m)
        | inr (shell, e) ↦ rw (e, terminate_persisted_shell) (end_process-Moves shell m)
      ]

  pub terminate_shell-Moves :
      (shell_id : String) (m : Manager)
      → Moves store m (state_of (terminate_shell host store k shell_id m))
  unfolding terminate_shell
  terminate_shell-Moves shell_id m = elim (Option-cases (lookup shell_id m.entries)) [
    | inl e ↦ rw (e, terminate_shell) (terminate_persisted_shell-Moves shell_id m)
    | inr (x, e) ↦
        rw (e, terminate_shell)
          (elim (Bool-cases (is_running x.shell.status)) [
            | inl f ↦ rw f (kill_child-Moves x.child (k.try_wait x.child) m)
            | inr f ↦ rw f (Moves-refl store m)
          ])
  ]

  pub terminate_shell_strict-Moves :
      (shell_id : String) (m : Manager)
      → Moves store m (state_of (terminate_shell_strict host store k shell_id m))
  unfolding terminate_shell_strict
  terminate_shell_strict-Moves shell_id m =
      continue-Moves store m (terminate_shell host store k shell_id m)
        (λ found. lift (ensure found not_live)) (terminate_shell-Moves shell_id m)
        (λ found m₁. Moves-refl store m₁)

module _ (host : Host) (store : Store) where
  note_exit-Moves :
      (io : Io) (c : ReactorChild) (code : ℕ) (m : Manager)
      → Moves store m (note_exit host io c code m)
  unfolding note_exit publish_lifecycle
  note_exit-Moves io c code m = elim (Option-cases (lookup c.shell_id m.entries)) [
    | inl e ↦ rw (e, note_exit) (Moves-refl store m)
    | inr (x, e) ↦
        rw (e, note_exit)
          (let shell = exited_record io (some code) x.shell in
            let m₁ = with_shell c.shell_id x shell m in
            Moves-update store m
              (publish_lifecycle gone shell
                (state_of (persist_record host io shell x.record_path m₁)))
              c.shell_id x (record x { shell = shell }) e
              (persist_record-same host io shell x.record_path m₁)
              (exited-IsEntry store io (some code) c.shell_id x)
              (exited-Continues store io (some code) x))
  ]

  module _ (poll : ℕ → Polled) (io : ℕ → Io) where
    note_exits-Moves :
        (index : ℕ) (cs : List ReactorChild) (m : Manager)
        → Moves store m (note_exits host poll io index cs m)
    unfolding note_exits
    note_exits-Moves index [] m = Moves-refl store m
    note_exits-Moves index (c ∷ cs) m = elim (Option-cases (code_of (poll c.child))) [
      | inl e ↦ rw (e, note_exits) (note_exits-Moves (suc index) cs m)
      | inr (code, e) ↦
          rw (e, note_exits)
            (Moves-trans store m (note_exits host poll io (suc index) cs m)
              (note_exit host (io index) c code (note_exits host poll io (suc index) cs m))
              (note_exits-Moves (suc index) cs m)
              (note_exit-Moves (io index) c code (note_exits host poll io (suc index) cs m)))
    ]

    pub check_reactor_children-Moves :
        (children rest : List ReactorChild) (m m' : Manager)
        → check_reactor_children host poll io children m ≡ some (rest, m')
        → Moves store m m'
    check_reactor_children-Moves children rest m m' e =
        let (left, reaped, same) = check_reactor_children-survivors host poll io children m in
        let both =
          some-injective (left, note_exits host poll io 0 children m) (rest, m') (sym reaped ∙ e) in
        rw (sym (ap (λ p. p.1) both)) (note_exits-Moves 0 children m)
