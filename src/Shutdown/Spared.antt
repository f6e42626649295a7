-- ===== src/Shutdown/Spared.antt =====
-- A shutdown of src/native_runtime.rs signals neither its own process nor an ancestor of it.
use mathlib.Core.Path.{subst}
use ferrous_framework.Base.{
  ℕ, ◌-◌, ◌≡◌, refl, sym, ap, ◌∙◌, String, Bool, false, not, List, [], ◌∷◌, ◌++◌, length, keep,
  ◌==◌, arith, All, All-append, Bool-cases, inl, inr,
}
use ferrous_framework.Shell.Record.{ShellRecord}
use ferrous_framework.ProcessTree.Defs.{
  mem, kill_plan, normalize_pids, protected_process_pids, shutdown_plan_pids,
}
use ferrous_framework.ProcessTree.Protected.{Ancestor, kill_plan-Ancestor}
use ferrous_framework.Shutdown.Defs.{
  Signalled, delivered, missing, failed, Event, already_exited, sent_sigterm, exited_before_sigterm,
  sent_sigkill, exited_before_sigkill, Os, Run, split_plan, after_sigterm, after_sigkill,
  terminate_one, terminate_all, kill_all, mark_one, mark_all, run_plan, plan_of,
  shutdown_process_tree,
}

-- the event is no signal to `p`
abbrev pub Spares : ℕ → Event → Type 0
Spares p (sent_sigterm q) = (q == p) ≡ false
Spares p (sent_sigkill q) = (q == p) ≡ false
Spares p _ = Unit

module _ (p : ℕ) where
  -- `p` was not signalled so far
  abbrev Spared : Run → Type 0
  Spared r = All (Spares p) r.events × (mem p r.term_sent ≡ false)

  mem-snoc :
      (q : ℕ) (xs : List ℕ) → mem p xs ≡ false → (q == p) ≡ false → mem p (xs ++ q ∷ []) ≡ false
  unfolding mem
  mem-snoc q [] h other = ground arith
  mem-snoc q (x ∷ xs) h other = ground (arith, mem-snoc q xs)

  with_event :
      (e : Event) (es : List Event) → Spares p e → All (Spares p) es → All (Spares p) (es ++ e ∷ [])
  with_event e es one all = All-append (Spares p) es (e ∷ []) all (one, tt)

  after_sigterm-Spared :
      (q : ℕ) (o : Signalled) (r : Run) → (q == p) ≡ false → Spared r → Spared (after_sigterm q o r)
  after_sigterm-Spared q delivered r other s =
      (with_event (sent_sigterm q) r.events other s.0, mem-snoc q r.term_sent s.1 other)
  after_sigterm-Spared q missing r other s =
      (with_event (exited_before_sigterm q) r.events tt s.0, s.1)
  after_sigterm-Spared q failed r other s = s

  after_sigkill-Spared :
      (q : ℕ) (o : Signalled) (r : Run) → (q == p) ≡ false → Spared r → Spared (after_sigkill q o r)
  after_sigkill-Spared q delivered r other s = (with_event (sent_sigkill q) r.events other s.0, s.1)
  after_sigkill-Spared q missing r other s =
      (with_event (exited_before_sigkill q) r.events tt s.0, s.1)
  after_sigkill-Spared q failed r other s = s

  mem-tail :
      (q : ℕ) (qs : List ℕ) → mem p (q ∷ qs) ≡ false → ((q == p) ≡ false) × (mem p qs ≡ false)
  unfolding mem
  mem-tail q qs h = (ground arith, ground arith)

  mem-keep_false : (f : ℕ → Bool) (qs : List ℕ) → mem p qs ≡ false → mem p (keep f qs) ≡ false
  unfolding mem
  mem-keep_false f [] h = refl
  mem-keep_false f (q ∷ qs) h = ground (arith, mem-keep_false f qs)

  module _ (os : Os) where
    terminate_one-Spared :
        (q : ℕ) (r : Run) → (q == p) ≡ false → Spared r → Spared (terminate_one os q r)
    terminate_one-Spared q r other s = elim (Bool-cases (os.live_before q)) [
      | inl b ↦ rw b (after_sigterm-Spared q (os.sigterm q) r other s)
      | inr b ↦ rw b (with_event (already_exited q) r.events tt s.0, s.1)
    ]

    terminate_all-Spared :
        (qs : List ℕ) (r : Run) → mem p qs ≡ false → Spared r → Spared (terminate_all os qs r)
    unfolding terminate_all
    terminate_all-Spared [] r h s = s
    terminate_all-Spared (q ∷ qs) r h s =
        let (other, rest) = mem-tail q qs h in
        terminate_all-Spared qs (terminate_one os q r) rest (terminate_one-Spared q r other s)

    kill_all-Spared :
        (qs : List ℕ) (r : Run) → mem p qs ≡ false → Spared r → Spared (kill_all os qs r)
    unfolding kill_all
    kill_all-Spared [] r h s = s
    kill_all-Spared (q ∷ qs) r h s =
        let (other, rest) = mem-tail q qs h in
        kill_all-Spared qs (after_sigkill q (os.sigkill q) r) rest
          (after_sigkill-Spared q (os.sigkill q) r other s)

    mark_one-events :
        (plan survivors : List ℕ) (shell : ShellRecord) (r : Run)
        → (mark_one os plan survivors shell r).events ≡ r.events
    mark_one-events plan survivors shell r = ground arith

    mark_all-events :
        (plan survivors : List ℕ) (shells : List ShellRecord) (r : Run)
        → (mark_all os plan survivors shells r).events ≡ r.events
    unfolding mark_all
    mark_all-events plan survivors [] r = refl
    mark_all-events plan survivors (shell ∷ shells) r =
        mark_all-events plan survivors shells (mark_one os plan survivors shell r)
        ∙ mark_one-events plan survivors shell r

    run_plan-Spared :
        (skipped : List Event) (plan : List ℕ)
        → All (Spares p) skipped
        → mem p plan ≡ false
        → All (Spares p) (run_plan os skipped plan).events
    unfolding run_plan mem
    run_plan-Spared skipped plan none_there h =
        let started : Run = record {
          stats = record {
            total = length plan;
            terminated = 0;
            clean_exits = 0;
            force_killed = 0;
            errors = [];
          };
          events = skipped;
          term_sent = [];
        } in
        let s1 = terminate_all-Spared plan started h (none_there, refl) in
        let terminated = terminate_all os plan started in
        let survivors = keep os.live_after terminated.term_sent in
        let counted : Run = record terminated {
          stats = record terminated.stats {
            clean_exits = length terminated.term_sent - length survivors;
          };
        } in
        let s2 =
          kill_all-Spared survivors counted (mem-keep_false os.live_after terminated.term_sent s1.1)
            s1 in
        subst (All (Spares p))
          (sym (mark_all-events plan survivors os.running (kill_all os survivors counted))) s2.0

split_plan-skips : (p : ℕ) (protected plan : List ℕ) → All (Spares p) (split_plan protected plan).0
unfolding split_plan
split_plan-skips p protected [] = tt
split_plan-skips p protected (q ∷ plan) = elim (Bool-cases (mem q protected)) [
  | inl b ↦ rw b (tt, split_plan-skips p protected plan)
  | inr b ↦ rw b (split_plan-skips p protected plan)
]

split_plan-keep :
    (protected plan : List ℕ)
    → (split_plan protected plan).1 ≡ keep (λ q. not (mem q protected)) plan
unfolding split_plan
split_plan-keep protected [] = refl
split_plan-keep protected (q ∷ plan) = ground (arith, split_plan-keep protected plan)

plan_of-kill_plan :
    (os : Os) (roots : List ℕ) → (plan_of os roots).1 ≡ kill_plan os.own_pid roots os.snapshot
unfolding plan_of kill_plan
plan_of-kill_plan os roots =
    split_plan-keep (protected_process_pids os.own_pid os.snapshot)
      (shutdown_plan_pids (normalize_pids roots) os.snapshot)

-- Whatever roots a shutdown is given, and however the processes react, its events have no signal
-- to its own process or to an ancestor of it in the snapshot.
pub shutdown_process_tree-Spares :
    (os : Os) (kind target : String) (root_pids : List ℕ) (note : String)
    (started_at_ms ended_at_ms p : ℕ)
    → Ancestor os.own_pid os.snapshot p
    → All
        (Spares p)
        (shutdown_process_tree os kind target root_pids note started_at_ms ended_at_ms).events
unfolding shutdown_process_tree
shutdown_process_tree-Spares os kind target root_pids note started_at_ms ended_at_ms p a =
    run_plan-Spared p os (plan_of os root_pids).0 (plan_of os root_pids).1
      (unfold plan_of in split_plan-skips p _ _)
      (ap (mem p) (plan_of-kill_plan os root_pids)
        ∙ kill_plan-Ancestor os.own_pid root_pids os.snapshot p a)
