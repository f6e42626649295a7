-- ===== src/Manager/Started.antt =====
-- What is running after `apply_rendered_shellspecs_blocking` of src/native_runtime.rs.
use ferrous_framework.Base.{
  ℕ, ◌≡◌, refl, sym, ap, ◌∙◌, String, str_eq, eq_iff, Bool, true, false, ◌&&◌, Option, none, some,
  List, [], ◌∷◌, ok, arith, inl, inr, Bool-cases, ensure, ok_or,
}
use ferrous_framework.Base.Action.{continue, continue_elim}
use ferrous_framework.Base.Assoc.{lookup, put}
use ferrous_framework.Shell.Record.{PtyMode, is_running, ShellRecord}
use ferrous_framework.Shell.Persist.{Host}
use ferrous_framework.ShellSpec.Entry.{ReadinessProbe, ShellSpec}
use ferrous_framework.Manager.Defs.{
  not_spawned, not_registered, Entry, Store, Manager, publish_lifecycle,
}
use ferrous_framework.Manager.Spawn.{
  Config, Metadata, SpawnIo, proc_capabilities, pipe_capabilities, pty_capabilities, new_record,
  insert_entry, install, new_entry, add_proc, add_pipe, add_pipe_output, add_pty, spawn_proc,
  spawn_pipe, spawn_pty,
}
use ferrous_framework.Manager.Access.{running_with_spec}
use ferrous_framework.Manager.Starts.{next_counter, next_id_of}
use ferrous_framework.Manager.Published.{install-ok, lift-ok, begin-ok}
use ferrous_framework.Manager.Apply.{
  Launch, parse_pty_mode, config_of, metadata_of, no_overrides, spawn_in_mode, spawn_backend,
  ready_or_end, await_ready, spawn_rendered_shellspec,
}

-- a shell of that specification is running
abbrev pub HasRunning : String → List (String × Entry) → Type 0
HasRunning spec_id entries =
    (shell : ShellRecord) × (running_with_spec spec_id entries ≡ some shell)

pub put-running :
    (spec_id key : String) (e : Entry) (entries : List (String × Entry))
    → lookup key entries ≡ none
    → e.shell.spec_id ≡ spec_id
    → is_running e.shell.status ≡ true
    → HasRunning spec_id (put key e entries)
unfolding running_with_spec put lookup
put-running spec_id key e [] fresh same runs =
    let equal : str_eq e.shell.spec_id spec_id ≡ true = (eq_iff e.shell.spec_id spec_id).1 same in
    (e.shell, rw (equal, runs) refl)
put-running spec_id key e ((name, old) ∷ rest) fresh same runs =
    elim (Bool-cases (str_eq name key)) [
      | inl f ↦ absurd (ground arith)
      | inr f ↦
          let (shell, later) = put-running spec_id key e rest (rw f at fresh) same runs in
          elim (Bool-cases (str_eq old.shell.spec_id spec_id && is_running old.shell.status)) [
            | inl g ↦ (old.shell, rw (f, put, g, running_with_spec) refl)
            | inr g ↦ (shell, rw (f, put, g, running_with_spec) later)
          ]
    ]

pub put_keeps :
    (spec_id key : String) (e : Entry) (entries : List (String × Entry))
    → lookup key entries ≡ none
    → HasRunning spec_id entries
    → HasRunning spec_id (put key e entries)
unfolding running_with_spec put lookup
put_keeps spec_id key e [] fresh (shell, h) = absurd (ground arith)
put_keeps spec_id key e ((name, old) ∷ rest) fresh (shell, h) =
    elim (Bool-cases (str_eq name key)) [
      | inl f ↦ absurd (ground arith)
      | inr f ↦
          elim (Bool-cases (str_eq old.shell.spec_id spec_id && is_running old.shell.status)) [
            | inl g ↦ (old.shell, rw (f, put, g, running_with_spec) refl)
            | inr g ↦
                let (found, later) =
                  put_keeps spec_id key e rest (rw f at fresh) (shell, rw g at h) in
                (found, rw (f, put, g, running_with_spec) later)
          ]
    ]

-- a spawn puts a running shell of its specification under the next id
abbrev pub Puts : SpawnIo → Config → Manager → Manager → Type 0
Puts s c m m' =
    (e : Entry) × (m'.entries ≡ put (next_id_of s m) e m.entries)
    × (e.shell.spec_id ≡ c.spec_id)
    × (is_running e.shell.status ≡ true)

module _ (host : Host) (store : Store) where
  module _ (s : SpawnIo) (c : Config) (meta : Metadata) (m m' : Manager) (shell : ShellRecord) where
    installed-Puts :
        (e : Entry)
        → install host store s e (record m { next_id = next_counter m }) ≡ (ok shell, m')
        → e.shell.id ≡ next_id_of s m
        → e.shell.spec_id ≡ c.spec_id
        → is_running e.shell.status ≡ true
        → Puts s c m m'
    unfolding publish_lifecycle insert_entry
    installed-Puts e h id spec runs =
        let m₁ = record m { next_id = next_counter m } in
        let (same, state) = install-ok host store s e m₁ m' shell h in
        (e, ap (λ x. x.entries) (sym state) ∙ ap (λ k. put k e m.entries) id, spec, runs)

    spawn_proc-Puts : spawn_proc host store s c meta m ≡ (ok shell, m') → Puts s c m m'
    unfolding spawn_proc new_record
    spawn_proc-Puts h =
        let (log_dir, child, h₁) =
          begin-ok host store s c (add_proc host store s c meta) m m' shell h in
        let m₁ = record m { next_id = next_counter m } in
        let e =
          new_entry host store s "proc" log_dir (next_id_of s m) none proc_capabilities c meta child
            none none none in
        let (registered, h₂) =
          lift-ok host store s (ensure s.registered not_registered) (λ _. install host store s e) m₁
            m' h₁ in
        installed-Puts e h₂ refl refl refl

    spawn_pipe-Puts : spawn_pipe host store s c meta m ≡ (ok shell, m') → Puts s c m m'
    unfolding spawn_pipe new_record
    spawn_pipe-Puts h =
        let (log_dir, child, h₁) =
          begin-ok host store s c (add_pipe host store s c meta) m m' shell h in
        let m₁ = record m { next_id = next_counter m } in
        let id = next_id_of s m in
        let output = add_pipe_output host store s c meta id log_dir child in
        let (stdout, h₂) = lift-ok host store s (ok_or child.stdout not_spawned) output m₁ m' h₁ in
        let e =
          new_entry host store s "pipe" log_dir id none (pipe_capabilities child.stdin) c meta child
            child.stdin (some stdout) none in
        let (registered, h₃) =
          lift-ok host store s (ensure s.registered not_registered) (λ _. install host store s e) m₁
            m' h₂ in
        installed-Puts e h₃ refl refl refl

    spawn_pty-Puts :
        (master : ℕ) (mode : PtyMode)
        → spawn_pty host store s master mode c meta m ≡ (ok shell, m')
        → Puts s c m m'
    unfolding spawn_pty new_record
    spawn_pty-Puts master mode h =
        let (log_dir, child, h₁) =
          begin-ok host store s c (add_pty host store s master mode c meta) m m' shell h in
        installed-Puts
          (new_entry host store s "pty" log_dir (next_id_of s m) (some mode) pty_capabilities c meta
            child (some master) (some master) (some child.resize))
          h₁ refl refl refl

  module _ (launch : Launch) (spec : ShellSpec) where
    spawn_backend-Puts :
        (c : Config) (meta : Metadata) (m m' : Manager) (shell : ShellRecord)
        → spawn_backend host store launch spec c meta m ≡ (ok shell, m')
        → Puts launch.spawn_io c m m'
    spawn_backend-Puts c meta m m' shell h = elim (Bool-cases (str_eq spec.backend "proc")) [
      | inl e ↦ spawn_proc-Puts launch.spawn_io c meta m m' shell (rw e at h)
      | inr e ↦ elim (Bool-cases (str_eq spec.backend "pipe")) [
        | inl f ↦ spawn_pipe-Puts launch.spawn_io c meta m m' shell (rw (e, f) at h)
        | inr f ↦ elim (Bool-cases (str_eq spec.backend "pty")) [
          | inl g ↦ in_mode (parse_pty_mode spec.pty_mode) (rw (e, f, g) at h)
          | inr g ↦ absurd (ground arith)
        ]
      ]
    ]
      where
        in_mode :
            (mode : Option PtyMode)
            → spawn_in_mode host store launch mode c meta m ≡ (ok shell, m')
            → Puts launch.spawn_io c m m'
        in_mode none g = absurd (ground arith)
        in_mode (some mode) g =
            spawn_pty-Puts launch.spawn_io c meta m m' shell launch.master mode g

    await_ready-same :
        (probe : Option ReadinessProbe) (shell shell' : ShellRecord) (m m' : Manager)
        → await_ready host store launch probe shell m ≡ (ok shell', m')
        → m ≡ m'
    await_ready-same none shell shell' m m' h = ap (λ r. r.1) h
    await_ready-same (some probe) shell shell' m m' h = go (launch.is_ready shell probe) h
      where
        go : (o : Option Bool) → ready_or_end host store launch o shell m ≡ (ok shell', m') → m ≡ m'
        go none g = absurd (ground arith)
        go (some true) g = ap (λ r. r.1) g
        go (some false) g = absurd (ground arith)

    pub spawn_rendered-Puts :
        (m m' : Manager) (shell : ShellRecord)
        → spawn_rendered_shellspec host store launch spec none no_overrides m ≡ (ok shell, m')
        → Puts launch.spawn_io (config_of spec none no_overrides) m m'
    unfolding spawn_rendered_shellspec
    spawn_rendered-Puts m m' shell h = elim (Bool-cases spec.autostart) [
      | inr e ↦ absurd (ground arith)
      | inl e ↦
          let c = config_of spec none no_overrides in
          let meta = metadata_of spec no_overrides in
          let h₁ : continue (spawn_backend host store launch spec c meta m)
                (await_ready host store launch spec.readiness)
              ≡ (ok shell, m') =
            rw (e, spawn_rendered_shellspec) at h in
          continue_elim (Puts launch.spawn_io c m m')
            (spawn_backend host store launch spec c meta m)
            (await_ready host store launch spec.readiness) h₁
            λ new m₁ o g.
              rw (sym (await_ready-same spec.readiness new shell m₁ m' g))
                (spawn_backend-Puts c meta m m₁ new o)
    ]
