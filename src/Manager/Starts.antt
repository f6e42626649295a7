-- ===== src/Manager/Starts.antt =====
-- What a spawn adds to the entries of the manager (src/native_runtime.rs).
use ferrous_framework.Base.{
  ℕ, ◌+◌, ◌%◌, ◌^◌, ◌≡◌, refl, ◌∙◌, String, true, Option, none, some, Result, ok, err, ensure,
  ok_or, arith, inl, inr, Bool-cases, if◌then◌else◌,
}
use ferrous_framework.Base.Action.{continue, lift, state_of}
use ferrous_framework.Base.Assoc.{lookup, put}
use ferrous_framework.Shell.Record.{PtyMode, Capabilities, ShellRecord}
use ferrous_framework.Shell.Persist.{Host}
use ferrous_framework.Manager.Defs.{
  Error, bad_log_dir, not_spawned, not_registered, Entry, Store, Manager, M, persist_record,
  publish_lifecycle,
}
use ferrous_framework.Manager.Spawn.{
  Config, Metadata, Child, SpawnIo, validate_command, next_shell_id, is_some, proc_capabilities,
  pipe_capabilities, pty_capabilities, new_record, insert_entry, install, begin, new_entry,
  add_proc, add_pipe_output, add_pipe, add_pty, spawn_proc, spawn_pipe, spawn_pty,
}
use ferrous_framework.Manager.Valid.{IsEntry, Moves, Moves-refl, Moves-same, Moves-insert}

abbrev pub next_counter : Manager → ℕ
next_counter m = (m.next_id + 1) % 2 ^ 64

-- the id that the next spawn takes
abbrev pub next_id_of : SpawnIo → Manager → String
next_id_of s m = s.shell_id s.global_id (next_counter m)

-- no shell of the manager has that id
abbrev pub IsFresh : SpawnIo → Manager → Type 0
IsFresh s m = lookup (next_id_of s m) m.entries ≡ none

module _ (host : Host) (store : Store) (s : SpawnIo) where
  lift-Moves :
      {A B : Type 0} (m m₁ : Manager) (r : Result Error A) (f : A → M B)
      → Moves store m m₁
      → ((a : A) → Moves store m (state_of (f a m₁)))
      → Moves store m (state_of (continue (lift r m₁) f))
  lift-Moves m m₁ (ok a) f here there = there a
  lift-Moves m m₁ (err e) f here there = here

  -- an entry is made whether or not the child is watched afterwards
  install-entries :
      (e : Entry) (m : Manager)
      → (state_of (install host store s e m)).entries
        ≡ (if s.io.writable then put e.shell.id e m.entries else m.entries)
  unfolding install persist_record insert_entry publish_lifecycle
  install-entries e m = ground arith

  install-Moves :
      (e : Entry) (m m₁ : Manager)
      → lookup e.shell.id m.entries ≡ none
      → m₁.entries ≡ m.entries
      → IsEntry store e.shell.id e
      → Moves store m (state_of (install host store s e m₁))
  install-Moves e m m₁ fresh same good = elim (Bool-cases s.io.writable) [
    | inl w ↦
        Moves-insert store m (state_of (install host store s e m₁)) e.shell.id e fresh
          (install-entries e m₁ ∙ rw (w, same) refl) good
    | inr w ↦
        Moves-same store m (state_of (install host store s e m₁))
          (install-entries e m₁ ∙ rw (w, same) refl)
  ]

  begin-Moves :
      (c : Config) (go : String → String → Child → M ShellRecord) (m : Manager)
      → ((log_dir : String) (child : Child)
          → Moves store m (
              state_of (go (next_id_of s m) log_dir child (record m { next_id = next_counter m }))))
      → Moves store m (state_of (begin host store s c go m))
  unfolding begin next_shell_id
  begin-Moves c go m rest =
      lift-Moves m m (validate_command c.command) _ (Moves-refl store m) λ valid.
        lift-Moves m m (ok_or (s.log_dir c.log_dir) bad_log_dir) _ (Moves-refl store m) λ log_dir.
          lift-Moves m (record m { next_id = next_counter m }) (ok_or s.child not_spawned) _
            (Moves-same store m (record m { next_id = next_counter m }) refl) (rest log_dir)

  module _ (c : Config) (meta : Metadata) where
    -- The entry of a new shell is one that the manager may hold.
    new-IsEntry :
        (backend log_dir shell_id : String) (mode : Option PtyMode) (capabilities : Capabilities)
        (child : Child) (input output resize : Option ℕ)
        → (capabilities.stdin_write ≡ true → is_some input ≡ true)
        → (capabilities.stdin_eof ≡ true → is_some input ≡ true)
        → (capabilities.resize ≡ true → is_some resize ≡ true)
        → IsEntry store shell_id (
            new_entry host store s backend log_dir shell_id mode capabilities c meta child input
              output resize)
    unfolding new_record
    new-IsEntry backend log_dir shell_id mode capabilities child input output resize w e r =
        record {
          named = refl;
          stored = refl;
          recorded = refl;
          writes = w;
          ends = e;
          resizes = r;
          own = refl;
        }

    pub spawn_proc-Moves :
        (m : Manager) → IsFresh s m → Moves store m (state_of (spawn_proc host store s c meta m))
    unfolding spawn_proc new_record
    spawn_proc-Moves m fresh = begin-Moves c (add_proc host store s c meta) m λ log_dir child.
        let m₁ = record m { next_id = next_counter m } in
        let e =
          new_entry host store s "proc" log_dir (next_id_of s m) none proc_capabilities c meta child
            none none none in
        lift-Moves m m₁ (ensure s.registered not_registered) (λ _. install host store s e)
          (Moves-same store m m₁ refl)
          λ registered. install-Moves e m m₁ fresh refl (
            new-IsEntry "proc" log_dir (next_id_of s m) none proc_capabilities child none none none
              (λ h. absurd (ground arith)) (λ h. absurd (ground arith))
              (λ h. absurd (ground arith)))

    pub spawn_pipe-Moves :
        (m : Manager) → IsFresh s m → Moves store m (state_of (spawn_pipe host store s c meta m))
    unfolding spawn_pipe new_record
    spawn_pipe-Moves m fresh = begin-Moves c (add_pipe host store s c meta) m λ log_dir child.
        let m₁ = record m { next_id = next_counter m } in
        let same = Moves-same store m m₁ refl in
        let output = add_pipe_output host store s c meta (next_id_of s m) log_dir child in
        lift-Moves m m₁ (ok_or child.stdout not_spawned) output same λ stdout.
          let e =
            new_entry host store s "pipe" log_dir (next_id_of s m) none
              (pipe_capabilities child.stdin) c meta child child.stdin (some stdout) none in
          lift-Moves m m₁ (ensure s.registered not_registered) (λ _. install host store s e) same
            λ registered. install-Moves e m m₁ fresh refl (
              new-IsEntry "pipe" log_dir (next_id_of s m) none (pipe_capabilities child.stdin) child
                child.stdin (some stdout) none (λ h. h) (λ h. h) (λ h. absurd (ground arith)))

    pub spawn_pty-Moves :
        (master : ℕ) (mode : PtyMode) (m : Manager)
        → IsFresh s m
        → Moves store m (state_of (spawn_pty host store s master mode c meta m))
    unfolding spawn_pty new_record
    spawn_pty-Moves master mode m fresh =
        begin-Moves c (add_pty host store s master mode c meta) m λ log_dir child.
          install-Moves
            (new_entry host store s "pty" log_dir (next_id_of s m) (some mode) pty_capabilities c
              meta child (some master) (some master) (some child.resize))
            m (record m { next_id = next_counter m }) fresh refl
            (new-IsEntry "pty" log_dir (next_id_of s m) (some mode) pty_capabilities child
              (some master) (some master) (some child.resize) (λ h. refl) (λ h. refl) (λ h. refl))
