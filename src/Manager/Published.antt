-- ===== src/Manager/Published.antt =====
-- A shell that was started, as its own manager and another one find it (src/native_runtime.rs).
use ferrous_framework.Base.{
  ℕ, ◌≡◌, refl, sym, ap, ◌∙◌, String, none, some, [], ◌∷◌, ◌++◌, Result, ok, err, ensure, ok_or,
  arith, inl, inr, Bool-cases,
}
use ferrous_framework.Base.Action.{continue, lift}
use ferrous_framework.Base.Assoc.{lookup, put, lookup-put_self}
use ferrous_framework.Shell.Record.{running, PtyMode, ShellRecord}
use ferrous_framework.Shell.Persist.{Host, to_persisted}
use ferrous_framework.Shell.Adopt.{ZeroIsZero, adopt, from-to_persisted}
use ferrous_framework.Manager.Defs.{
  Error, bad_log_dir, not_spawned, not_registered, spawned, Entry, Store, Manager, M,
  record_path_for, get_shell, persist_record, publish_lifecycle,
}
use ferrous_framework.Manager.Spawn.{
  Config, Metadata, Child, SpawnIo, validate_command, pipe_capabilities, proc_capabilities,
  pty_capabilities, new_record, new_entry, install, insert_entry, next_shell_id, begin, add_proc,
  add_pipe, add_pipe_output, add_pty, spawn_proc, spawn_pipe, spawn_pty,
}
use ferrous_framework.Manager.Starts.{next_counter, next_id_of}

-- The shell is running, its manager has it, a manager that only has the disk in common finds it as an adopted
-- one, and its start is the last event.
pub record IsPublished (host : Host) (store : Store) (shell : ShellRecord) (m : Manager)
    : Type 0 where
  pub is_new : shell.status ≡ running
  pub live : get_shell host store shell.id m ≡ some shell
  pub announced :
      (before : _) × (m.lifecycle
        ≡ before ++ record { kind = spawned; shell_id = shell.id; shell = shell } ∷ [])
  pub shared :
      (other : Manager)
      → other.disk ≡ m.disk
      → lookup shell.id other.entries ≡ none
      → get_shell host store shell.id other ≡ some (adopt host shell)

module _ (host : Host) (store : Store) (s : SpawnIo) where
  -- what is on the disk is read as the adopted record
  from_disk :
      (shell : ShellRecord) (other : Manager)
      → ZeroIsZero host
      → lookup (record_path_for store shell.id) other.disk ≡ some (to_persisted host shell)
      → lookup shell.id other.entries ≡ none
      → get_shell host store shell.id other ≡ some (adopt host shell)
  unfolding get_shell
  from_disk shell other z at fresh =
      rw (fresh, get_shell, at, from-to_persisted host (record_path_for store shell.id) shell z)
        refl

  -- the state behind an install that succeeds
  abbrev pub installed : Entry → Manager → Manager
  installed e m = publish_lifecycle spawned e.shell (
      insert_entry host store s e
        (record m { disk = put e.record_path (to_persisted host e.shell) m.disk }))

  pub install-ok :
      (e : Entry) (m m' : Manager) (shell : ShellRecord)
      → install host store s e m ≡ (ok shell, m')
      → (e.shell ≡ shell) × (installed e m ≡ m')
  unfolding install persist_record insert_entry publish_lifecycle
  install-ok e m m' shell h = elim (Bool-cases s.io.writable) [
    | inl w ↦ elim (Bool-cases s.watched) [
      | inl x ↦
          let good : install host store s e m ≡ (ok e.shell, installed e m) =
            rw (install, w, x) refl in
          let both : ◌≡◌ {A = Result Error ShellRecord × Manager} (ok e.shell, installed e m)
              (ok shell, m') =
            sym good ∙ h in
          (ground arith, ap (λ r. r.1) both)
      | inr x ↦ absurd (ground arith)
    ]
    | inr w ↦ absurd (ground arith)
  ]

  install-IsPublished :
      (e : Entry) (m m' : Manager) (shell : ShellRecord)
      → ZeroIsZero host
      → e.shell.status ≡ running
      → e.record_path ≡ record_path_for store e.shell.id
      → install host store s e m ≡ (ok shell, m')
      → IsPublished host store shell m'
  unfolding install persist_record insert_entry publish_lifecycle get_shell
  install-IsPublished e m m' shell z new path h =
      let (same, state) = install-ok e m m' shell h in
      rw (sym same, sym state)
        (record {
          is_new = new;
          live = rw (lookup-put_self e.shell.id e m.entries, get_shell) refl;
          announced = (m.lifecycle, refl);
          shared = λ other disk fresh.
              from_disk e.shell other z
                (ap (lookup (record_path_for store e.shell.id)) disk
                  ∙ rw (sym path)
                      (lookup-put_self e.record_path (to_persisted host e.shell) m.disk))
                fresh;
        })

  -- a part that cannot change the state, before one that succeeds
  pub lift-ok :
      {A B : Type 0} (r : Result Error A) (f : A → M B) (m m' : Manager) {b : B}
      → continue (lift r m) f ≡ (ok b, m')
      → (a : A) × (f a m ≡ (ok b, m'))
  lift-ok (ok a) f m m' h = (a, h)
  lift-ok (err e) f m m' h = absurd (ground arith)

  pub begin-ok :
      (c : Config) (go : String → String → Child → M ShellRecord) (m m' : Manager)
      (shell : ShellRecord)
      → begin host store s c go m ≡ (ok shell, m')
      → (log_dir : String) × (child : Child) × (go
            (next_id_of s m)
            log_dir
            child
            (record m { next_id = next_counter m })
          ≡ (ok shell, m'))
  unfolding begin next_shell_id
  begin-ok c go m m' shell h =
      let (valid, h₁) = lift-ok (validate_command c.command) _ m m' h in
      let (log_dir, h₂) = lift-ok (ok_or (s.log_dir c.log_dir) bad_log_dir) _ m m' h₁ in
      let (child, h₃) =
        lift-ok (ok_or s.child not_spawned) _ (record m { next_id = next_counter m }) m' h₂ in
      (log_dir, child, h₃)

  module _ (c : Config) (meta : Metadata) (m m' : Manager) (shell : ShellRecord) where
    -- When a pipe is started without an error, on a host on which a time of zero milliseconds is
    -- not a positive number of seconds, its record is running, its manager returns it for its id,
    -- its start is the last lifecycle event, and any other manager with the same disk and no entry
    -- of that id returns the record as an adopted one.
    pub spawn_pipe-IsPublished :
        ZeroIsZero host
        → spawn_pipe host store s c meta m ≡ (ok shell, m')
        → IsPublished host store shell m'
    unfolding spawn_pipe new_record
    spawn_pipe-IsPublished z h =
        let (log_dir, child, h₁) = begin-ok c (add_pipe host store s c meta) m m' shell h in
        let m₁ = record m { next_id = next_counter m } in
        let id = next_id_of s m in
        let (stdout, h₂) =
          lift-ok (ok_or child.stdout not_spawned)
            (add_pipe_output host store s c meta id log_dir child) m₁ m' h₁ in
        let e =
          new_entry host store s "pipe" log_dir id none (pipe_capabilities child.stdin) c meta child
            child.stdin (some stdout) none in
        let (registered, h₃) =
          lift-ok (ensure s.registered not_registered) (λ _. install host store s e) m₁ m' h₂ in
        install-IsPublished e m₁ m' shell z refl refl h₃

    -- x
    pub spawn_proc-IsPublished :
        ZeroIsZero host
        → spawn_proc host store s c meta m ≡ (ok shell, m')
        → IsPublished host store shell m'
    unfolding spawn_proc new_record
    spawn_proc-IsPublished z h =
        let (log_dir, child, h₁) = begin-ok c (add_proc host store s c meta) m m' shell h in
        let m₁ = record m { next_id = next_counter m } in
        let e =
          new_entry host store s "proc" log_dir (next_id_of s m) none proc_capabilities c meta child
            none none none in
        let (registered, h₂) =
          lift-ok (ensure s.registered not_registered) (λ _. install host store s e) m₁ m' h₁ in
        install-IsPublished e m₁ m' shell z refl refl h₂

    -- x
    pub spawn_pty-IsPublished :
        (master : ℕ) (mode : PtyMode)
        → ZeroIsZero host
        → spawn_pty host store s master mode c meta m ≡ (ok shell, m')
        → IsPublished host store shell m'
    unfolding spawn_pty new_record
    spawn_pty-IsPublished master mode z h =
        let (log_dir, child, h₁) =
          begin-ok c (add_pty host store s master mode c meta) m m' shell h in
        let e =
          new_entry host store s "pty" log_dir (next_id_of s m) (some mode) pty_capabilities c meta
            child (some master) (some master) (some child.resize) in
        install-IsPublished e (record m { next_id = next_counter m }) m' shell z refl refl h₁
