-- ===== src/Manager/Applied.antt =====
-- Applying specifications twice (`apply_rendered_shellspecs_blocking` of src/native_runtime.rs).
use ferrous_framework.Base.{
  ℕ, suc, ◌≡◌, String, true, not, none, some, List, [], ◌∷◌, All, if◌then◌else◌,
}
use ferrous_framework.Base.Action.{state_of}
use ferrous_framework.Shell.Persist.{Host}
use ferrous_framework.ShellSpec.Entry.{ShellSpec}
use ferrous_framework.Manager.Defs.{Store, Manager}
use ferrous_framework.Manager.Access.{running_with_spec}
use ferrous_framework.Manager.Starts.{IsFresh}
use ferrous_framework.Manager.Apply.{Launch, no_overrides, spawn_rendered_shellspec}
use ferrous_framework.Manager.Started.{HasRunning}

-- every specification that starts by itself has a running shell
abbrev pub AllRunning : List ShellSpec → Manager → Type 0
AllRunning specs m = All (λ spec. spec.autostart ≡ true → HasRunning spec.id m.entries) specs

-- what ran for a specification, something still runs for
abbrev pub KeepsRunning : Manager → Manager → Type 0
KeepsRunning m m' =
    (spec_id : String) → HasRunning spec_id m.entries → HasRunning spec_id m'.entries

module _ (host : Host) (store : Store) where
  -- the state behind one specification
  abbrev pub state_behind : Launch → ShellSpec → Manager → Manager
  state_behind launch spec m =
      if not spec.autostart then m else elim (running_with_spec spec.id m.entries) [
        | some shell ↦ m
        | none ↦ state_of (spawn_rendered_shellspec host store launch spec none no_overrides m)
      ]

  -- at each specification, the next id of its launch is not that of a shell of the manager
  unfoldable pub FreshLaunches : (ℕ → Launch) → ℕ → List ShellSpec → Manager → Type 0
  FreshLaunches launches n [] m = Unit
  FreshLaunches launches n (spec ∷ specs) m =
      IsFresh (launches n).spawn_io m
      × FreshLaunches launches (suc n) specs (state_behind (launches n) spec m)
