-- ===== src/Manager/Launched.antt =====
-- How `spawn_rendered_shellspec_blocking` and `apply_rendered_shellspecs_blocking` of src/native_runtime.rs move the
-- manager.
use mathlib.Core.Path.{subst}
use ferrous_framework.Base.{
  ℕ, suc, ◌≡◌, refl, true, false, not, sym, String, str_eq, Bool, Option, none, some, List, [], ◌∷◌,
  Result, ok, err, inl, inr, Bool-cases, Option-cases, if◌then◌else◌,
}
use ferrous_framework.Base.Action.{continue, state_of}
use ferrous_framework.Shell.Record.{PtyMode, ShellRecord}
use ferrous_framework.Shell.Persist.{Host}
use ferrous_framework.ShellSpec.Entry.{ShellSpec, ReadinessProbe}
use ferrous_framework.Manager.Defs.{Error, Store, Manager, live_records}
use ferrous_framework.Manager.Spawn.{Config, Metadata}
use ferrous_framework.Manager.Access.{running_with_spec}
use ferrous_framework.Manager.Terminate.{KillIo, terminate_shell}
use ferrous_framework.Manager.Valid.{Moves, Moves-refl, Moves-trans}
use ferrous_framework.Manager.Moves.{continue-Moves}
use ferrous_framework.Manager.Ends.{terminate_shell-Moves}
use ferrous_framework.Manager.Starts.{IsFresh, spawn_proc-Moves, spawn_pipe-Moves, spawn_pty-Moves}
use ferrous_framework.Manager.Apply.{
  Launch, LaunchOverrides, no_overrides, config_of, metadata_of, parse_pty_mode, is_desired,
  spawn_in_mode, spawn_backend, ready_or_end, await_ready, spawn_rendered_shellspec, started_too,
  start_missing, prune_others, pruned, apply_rendered_shellspecs,
}
use ferrous_framework.Manager.Applied.{FreshLaunches, state_behind}

module _ (host : Host) (store : Store) where
  if-Moves :
      {A : Type 0} (b : Bool) (m : Manager) (x y : Result Error A × Manager)
      → Moves store m (state_of x)
      → Moves store m (state_of y)
      → Moves store m (state_of (if b then x else y))
  if-Moves true m x y h k = h
  if-Moves false m x y h k = k

  module _ (launch : Launch) where
    spawn_in_mode-Moves :
        (mode : Option PtyMode) (c : Config) (meta : Metadata) (m : Manager)
        → IsFresh launch.spawn_io m
        → Moves store m (state_of (spawn_in_mode host store launch mode c meta m))
    spawn_in_mode-Moves none c meta m fresh = Moves-refl store m
    spawn_in_mode-Moves (some mode) c meta m fresh =
        spawn_pty-Moves host store launch.spawn_io c meta launch.master mode m fresh

    spawn_backend-Moves :
        (spec : ShellSpec) (c : Config) (meta : Metadata) (m : Manager)
        → IsFresh launch.spawn_io m
        → Moves store m (state_of (spawn_backend host store launch spec c meta m))
    spawn_backend-Moves spec c meta m fresh =
        if-Moves (str_eq spec.backend "proc") m _ _
          (spawn_proc-Moves host store launch.spawn_io c meta m fresh)
          (if-Moves (str_eq spec.backend "pipe") m _ _
            (spawn_pipe-Moves host store launch.spawn_io c meta m fresh)
            (if-Moves (str_eq spec.backend "pty") m _ _
              (spawn_in_mode-Moves (parse_pty_mode spec.pty_mode) c meta m fresh)
              (Moves-refl store m)))

    ready_or_end-Moves :
        (ready : Option Bool) (shell : ShellRecord) (m : Manager)
        → Moves store m (state_of (ready_or_end host store launch ready shell m))
    ready_or_end-Moves none shell m = Moves-refl store m
    ready_or_end-Moves (some true) shell m = Moves-refl store m
    ready_or_end-Moves (some false) shell m =
        terminate_shell-Moves host store launch.kill_io shell.id m

    await_ready-Moves :
        (probe : Option ReadinessProbe) (shell : ShellRecord) (m : Manager)
        → Moves store m (state_of (await_ready host store launch probe shell m))
    await_ready-Moves none shell m = Moves-refl store m
    await_ready-Moves (some probe) shell m =
        ready_or_end-Moves (launch.is_ready shell probe) shell m

    pub spawn_rendered-Moves :
        (spec : ShellSpec) (log_dir : Option String) (o : LaunchOverrides) (m : Manager)
        → IsFresh launch.spawn_io m
        → Moves store m (state_of (spawn_rendered_shellspec host store launch spec log_dir o m))
    unfolding spawn_rendered_shellspec
    spawn_rendered-Moves spec log_dir o m fresh =
        if-Moves (not spec.autostart) m _ _ (Moves-refl store m) (
          continue-Moves store m
            (spawn_backend host store launch spec (config_of spec log_dir o) (metadata_of spec o) m)
            (await_ready host store launch spec.readiness)
            (spawn_backend-Moves spec (config_of spec log_dir o) (metadata_of spec o) m fresh)
            (await_ready-Moves spec.readiness))

  -- one that is spawned, and those behind it
  behind-Moves :
      (launches : ℕ → Launch) (n : ℕ) (specs : List ShellSpec) (m : Manager)
      (o : Result Error ShellRecord × Manager)
      → Moves store m (state_of o)
      → ((m₁ : Manager)
          → FreshLaunches host store launches n specs m₁
          → Moves store m₁ (state_of (start_missing host store launches n specs m₁)))
      → FreshLaunches host store launches n specs (state_of o)
      → Moves store m (
          state_of (
            continue o λ shell m₁.
              continue
                (start_missing host store launches n specs m₁)
                (started_too host store shell)))
  behind-Moves launches n specs m (ok shell, m₁) here later fresh =
      Moves-trans store m m₁
        (state_of
          (continue (start_missing host store launches n specs m₁) (started_too host store shell)))
        here
        (continue-Moves store m₁ (start_missing host store launches n specs m₁)
          (started_too host store shell) (later m₁ fresh) (λ shells m₂. Moves-refl store m₂))
  behind-Moves launches n specs m (err e, m₁) here later fresh = here

  -- a round of `start_missing`, by its two tests
  abbrev round :
      (ℕ → Launch)
      → ℕ
      → ShellSpec
      → List ShellSpec
      → Manager
      → Bool
      → Option ShellRecord
      → Result Error (List ShellRecord) × Manager
  round launches n spec specs m autostart running =
      if not autostart then start_missing host store launches (suc n) specs m else elim running [
        | some shell ↦ start_missing host store launches (suc n) specs m
        | none ↦
            continue (spawn_rendered_shellspec host store (launches n) spec none no_overrides m)
              λ shell m₁.
                continue (start_missing host store launches (suc n) specs m₁)
                  (started_too host store shell)
      ]

  abbrev behind : Launch → ShellSpec → Manager → Bool → Option ShellRecord → Manager
  behind launch spec m autostart running = if not autostart then m else elim running [
    | some shell ↦ m
    | none ↦ state_of (spawn_rendered_shellspec host store launch spec none no_overrides m)
  ]

  start_missing-Moves :
      (launches : ℕ → Launch) (n : ℕ) (specs : List ShellSpec) (m : Manager)
      → FreshLaunches host store launches n specs m
      → Moves store m (state_of (start_missing host store launches n specs m))
  unfolding start_missing FreshLaunches
  start_missing-Moves launches n [] m fresh = Moves-refl store m
  start_missing-Moves launches n (spec ∷ specs) m fresh = elim (Bool-cases spec.autostart) [
    | inr off ↦
        moves (start_missing host store launches (suc n) specs m) (rw off refl)
          (start_missing-Moves launches (suc n) specs m (later m (rw off refl)))
    | inl on ↦ elim (Option-cases (running_with_spec spec.id m.entries)) [
      | inr (x, e) ↦
          moves (start_missing host store launches (suc n) specs m) (rw (on, e) refl)
            (start_missing-Moves launches (suc n) specs m (later m (rw (on, e) refl)))
      | inl e ↦
          let spawn = spawn_rendered_shellspec host store (launches n) spec none no_overrides m in
          moves
            (continue spawn λ shell m₁.
              continue (start_missing host store launches (suc n) specs m₁)
                (started_too host store shell))
            (λ i. round launches n spec specs m (on i) (e i))
            (behind-Moves launches (suc n) specs m spawn
              (spawn_rendered-Moves (launches n) spec none no_overrides m fresh.0)
              (start_missing-Moves launches (suc n) specs)
              (later (state_of spawn) (λ i. behind (launches n) spec m (on i) (e i))))
    ]
  ]
    where
      moves :
          (o : Result Error (List ShellRecord) × Manager)
          → start_missing host store launches n (spec ∷ specs) m ≡ o
          → Moves store m (state_of o)
          → Moves store m (state_of (start_missing host store launches n (spec ∷ specs) m))
      moves o q = subst (λ x. Moves store m (state_of x)) (sym q)

      later :
          (m₁ : Manager)
          → state_behind host store (launches n) spec m ≡ m₁
          → FreshLaunches host store launches (suc n) specs m₁
      later m₁ q = subst (FreshLaunches host store launches (suc n) specs) q fresh.1

  prune_others-Moves :
      (kill : KillIo) (specs : List ShellSpec) (shells : List ShellRecord) (m : Manager)
      → Moves store m (state_of (prune_others host store kill specs shells m))
  unfolding prune_others
  prune_others-Moves kill specs [] m = Moves-refl store m
  prune_others-Moves kill specs (shell ∷ shells) m =
      if-Moves (is_desired shell.spec_id specs) m _ _ (prune_others-Moves kill specs shells m) (
        continue-Moves store m (terminate_shell host store kill shell.id m)
          (λ _. prune_others host store kill specs shells)
          (terminate_shell-Moves host store kill shell.id m)
          (λ _ m₁. prune_others-Moves kill specs shells m₁))

  pub apply_rendered_shellspecs-Moves :
      (launches : ℕ → Launch) (kill : KillIo) (specs : List ShellSpec) (prune : Bool) (m : Manager)
      → FreshLaunches host store launches 0 specs m
      → Moves store m (state_of (apply_rendered_shellspecs host store launches kill specs prune m))
  unfolding apply_rendered_shellspecs
  apply_rendered_shellspecs-Moves launches kill specs prune m fresh =
      continue-Moves store m (start_missing host store launches 0 specs m)
        (pruned host store kill prune specs) (start_missing-Moves launches 0 specs m fresh)
        λ started m₁.
          if-Moves prune m₁ _ _
            (continue-Moves store m₁ (prune_others host store kill specs (live_records m₁) m₁)
              (λ _ m₂. (ok started, m₂)) (prune_others-Moves kill specs (live_records m₁) m₁)
              (λ _ m₂. Moves-refl store m₂))
            (Moves-refl store m₁)
