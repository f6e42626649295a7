-- ===== src/Manager/Ended.antt =====
-- A shell of another manager, after this one has terminated it (`terminate_persisted_shell_blocking` of
-- src/native_runtime.rs).
use ferrous_framework.Base.{
  ℕ, ◌≡◌, refl, sym, ap, ◌∙◌, String, Bool, false, Option, none, some, List, ok, ensure, arith, inl,
  inr, Bool-cases, Option-cases,
}
use ferrous_framework.Base.Action.{lift, continue_elim}
use ferrous_framework.Base.Assoc.{lookup, put, lookup-put_self}
use ferrous_framework.Shell.Record.{is_running, ShellRecord}
use ferrous_framework.Shell.Persist.{Host, to_persisted, from_persisted, observed_status}
use ferrous_framework.Shutdown.Defs.{Signalled, delivered, missing, failed}
use ferrous_framework.Manager.Defs.{
  not_live, Store, Manager, record_path_for, get_shell, exited_record, persist_record,
  publish_lifecycle, mark_record_exited,
}
use ferrous_framework.Manager.Terminate.{
  KillIo, sigkill_code, exited_with, after_signal, signal_process, end_process,
  terminate_persisted_shell, terminate_shell, terminate_shell_strict,
}

-- the manager finds the shell, and it does not run
abbrev pub IsEnded : Host → Store → String → Manager → Type 0
IsEnded host store shell_id m =
    (shell : ShellRecord) × (get_shell host store shell_id m ≡ some shell)
    × (is_running shell.status ≡ false)

-- the record of the shell is where `record_path_for` looks for it
pub record IsPlaced (store : Store) (shell_id : String) (shell : ShellRecord) : Type 0 where
  pub named : shell.id ≡ shell_id
  pub placed : shell.record_path ≡ record_path_for store shell_id

put_at :
    {V : Type 0} (key other : String) (value : V) (entries : List (String × V))
    → key ≡ other
    → lookup other (put key value entries) ≡ some value
put_at key other value entries same = rw (sym same) (lookup-put_self key value entries)

module _ (host : Host) (store : Store) (k : KillIo) (shell_id : String) where
  -- a record that was written as exited is found, and does not run
  on_disk :
      (m : Manager) (shell : ShellRecord)
      → lookup shell_id m.entries ≡ none
      → lookup (record_path_for store shell_id) m.disk ≡ some (to_persisted host shell)
      → is_running shell.status ≡ false
      → IsEnded host store shell_id m
  unfolding get_shell from_persisted to_persisted observed_status
  on_disk m shell fresh at ends = (
    from_persisted host (record_path_for store shell_id) (to_persisted host shell),
    rw (fresh, get_shell, at) refl,
    rw ends ends,
  )

  module _ (m m' : Manager) (fresh : lookup shell_id m.entries ≡ none) where
    exited_with-ok :
        (shell : ShellRecord) (code : Option ℕ) {b : Bool}
        → shell.id ≡ shell_id
        → exited_with host store k shell code m ≡ (ok b, m')
        → (m'.entries ≡ m.entries)
          × (m'.disk
              ≡ put shell.record_path (to_persisted host (exited_record k.io code shell)) m.disk)
    unfolding mark_record_exited persist_record publish_lifecycle
    exited_with-ok shell code named h =
        let none_there : lookup shell.id m.entries ≡ none = rw named fresh in
        elim (Bool-cases k.io.writable) [
          | inl e ↦ (ground arith, ground arith)
          | inr e ↦ absurd (ground arith)
        ]

    exited_with-IsEnded :
        (shell : ShellRecord) (code : Option ℕ) {b : Bool}
        → IsPlaced store shell_id shell
        → exited_with host store k shell code m ≡ (ok b, m')
        → IsEnded host store shell_id m'
    exited_with-IsEnded shell code p h =
        let (entries, disk) = exited_with-ok shell code p.named h in
        let r = exited_record k.io code shell in
        on_disk m' r (ap (lookup shell_id) entries ∙ fresh)
          (ap (lookup (record_path_for store shell_id)) disk
            ∙ put_at shell.record_path (record_path_for store shell_id) (to_persisted host r) m.disk
                p.placed)
          refl

    after_signal-IsEnded :
        (shell : ShellRecord) {b : Bool}
        → IsPlaced store shell_id shell
        → after_signal host store k shell m ≡ (ok b, m')
        → IsEnded host store shell_id m'
    after_signal-IsEnded shell p h = elim (Bool-cases (k.live_after shell.pid)) [
      | inl e ↦ absurd (ground arith)
      | inr e ↦ exited_with-IsEnded shell (some sigkill_code) p (rw e at h)
    ]

    signal_process-IsEnded :
        (shell : ShellRecord) (s : Signalled) {b : Bool}
        → IsPlaced store shell_id shell
        → signal_process host store k shell s m ≡ (ok b, m')
        → IsEnded host store shell_id m'
    signal_process-IsEnded shell delivered p h = after_signal-IsEnded shell p h
    signal_process-IsEnded shell missing p h = after_signal-IsEnded shell p h
    signal_process-IsEnded shell failed p h = absurd (ground arith)

    end_process-IsEnded :
        (shell : ShellRecord) {b : Bool}
        → IsPlaced store shell_id shell
        → get_shell host store shell_id m ≡ some shell
        → end_process host store k shell m ≡ (ok b, m')
        → IsEnded host store shell_id m'
    end_process-IsEnded shell p found h = elim (Bool-cases (is_running shell.status)) [
      | inr e ↦ let same : m ≡ m' = ap (λ r. r.1) (rw e at h) in (shell, rw (sym same) found, e)
      | inl e ↦ elim (Bool-cases (k.live_before shell.pid)) [
        | inl f ↦ signal_process-IsEnded shell (k.signal shell.pid) p (rw (e, f) at h)
        | inr f ↦ exited_with-IsEnded shell none p (rw (e, f) at h)
      ]
    ]

    -- When the strict termination of a shell that is not an entry of the manager succeeds, and the
    -- record that the manager finds for its id carries that id and its place on the disk, then the
    -- manager finds a record for the id afterwards, and it is not running.
    pub terminate_persisted_shell-IsEnded :
        ((shell : ShellRecord)
          → get_shell host store shell_id m ≡ some shell
          → IsPlaced store shell_id shell)
        → terminate_shell_strict host store k shell_id m ≡ (ok tt, m')
        → IsEnded host store shell_id m'
    unfolding terminate_shell_strict terminate_shell terminate_persisted_shell
    terminate_persisted_shell-IsEnded placed h =
        elim (Option-cases (get_shell host store shell_id m)) [
          | inl e ↦ absurd (ground arith)
          | inr (shell, e) ↦
              let run : terminate_shell host store k shell_id m ≡ end_process host store k shell m =
                rw (fresh, terminate_shell, e, terminate_persisted_shell) refl in
              continue_elim (IsEnded host store shell_id m')
                (terminate_shell host store k shell_id m) (λ found. lift (ensure found not_live)) h
                λ found m₁ o h₁.
                  let same : m₁ ≡ m' = ap (λ r. r.1) h₁ in
                  end_process-IsEnded shell (placed shell e) e
                    (sym run ∙ o ∙ ap (λ x. (ok found, x)) same)
        ]
