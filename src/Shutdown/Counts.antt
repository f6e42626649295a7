-- ===== src/Shutdown/Counts.antt =====
-- The counts of a shutdown (src/native_runtime.rs) fit together.
use ferrous_framework.Base.{
  ℕ, ◌+◌, ◌-◌, ◌≤◌, ◌≡◌, refl, String, Bool, List, [], ◌∷◌, length, length-append, keep, arith,
  Bool-cases, inl, inr,
}
use ferrous_framework.Shell.Record.{ShellRecord}
use ferrous_framework.Shutdown.Defs.{
  Signalled, delivered, missing, failed, Event, Os, Stats, Run, after_sigterm, after_sigkill,
  terminate_one, terminate_all, kill_all, mark_one, mark_all, run_plan, plan_of,
  shutdown_process_tree,
}

-- `terminated` counts the pids that SIGTERM was sent to.
abbrev Sent : Run → Type 0
Sent r = r.stats.terminated ≡ length r.term_sent

after_sigterm-counts :
    (pid : ℕ) (o : Signalled) (r : Run)
    → Sent r
    → Sent (after_sigterm pid o r)
      × (length (after_sigterm pid o r).term_sent ≤ length r.term_sent + 1)
      × ((after_sigterm pid o r).stats.total ≡ r.stats.total)
      × ((after_sigterm pid o r).stats.force_killed ≡ r.stats.force_killed)
after_sigterm-counts pid delivered r h =
    let one = length-append r.term_sent (pid ∷ []) in (omega arith, omega arith, refl, refl)
after_sigterm-counts pid missing r h = (h, omega arith, refl, refl)
after_sigterm-counts pid failed r h = (h, omega arith, refl, refl)

module _ (os : Os) where
  terminate_one-counts :
      (pid : ℕ) (r : Run)
      → Sent r
      → Sent (terminate_one os pid r)
        × (length (terminate_one os pid r).term_sent ≤ length r.term_sent + 1)
        × ((terminate_one os pid r).stats.total ≡ r.stats.total)
        × ((terminate_one os pid r).stats.force_killed ≡ r.stats.force_killed)
  terminate_one-counts pid r h = elim (Bool-cases (os.live_before pid)) [
    | inl b ↦ rw b (after_sigterm-counts pid (os.sigterm pid) r h)
    | inr b ↦ rw b (h, omega arith, refl, refl)
  ]

  terminate_all-counts :
      (pids : List ℕ) (r : Run)
      → Sent r
      → Sent (terminate_all os pids r)
        × (length (terminate_all os pids r).term_sent ≤ length r.term_sent + length pids)
        × ((terminate_all os pids r).stats.total ≡ r.stats.total)
        × ((terminate_all os pids r).stats.force_killed ≡ r.stats.force_killed)
  unfolding terminate_all
  terminate_all-counts [] r h = (h, omega arith, refl, refl)
  terminate_all-counts (pid ∷ pids) r h =
      let (h1, l1, t1, f1) = terminate_one-counts pid r h in
      let (h2, l2, t2, f2) = terminate_all-counts pids (terminate_one os pid r) h1 in
      (h2, omega arith, omega arith, omega arith)

  -- what the later phases leave
  abbrev Same : Run → Run → Type 0
  Same r r' =
      (r'.stats.total ≡ r.stats.total)
      × (r'.stats.terminated ≡ r.stats.terminated)
      × (r'.stats.clean_exits ≡ r.stats.clean_exits)

  after_sigkill-counts :
      (pid : ℕ) (o : Signalled) (r : Run)
      → Same r (after_sigkill pid o r)
        × ((after_sigkill pid o r).stats.force_killed ≤ r.stats.force_killed + 1)
  after_sigkill-counts pid delivered r = ((refl, refl, refl), omega arith)
  after_sigkill-counts pid missing r = ((refl, refl, refl), omega arith)
  after_sigkill-counts pid failed r = ((refl, refl, refl), omega arith)

  kill_all-counts :
      (pids : List ℕ) (r : Run)
      → Same r (kill_all os pids r)
        × ((kill_all os pids r).stats.force_killed ≤ r.stats.force_killed + length pids)
  unfolding kill_all
  kill_all-counts [] r = ((refl, refl, refl), omega arith)
  kill_all-counts (pid ∷ pids) r =
      let ((a1, b1, c1), k1) = after_sigkill-counts pid (os.sigkill pid) r in
      let ((a2, b2, c2), k2) = kill_all-counts pids (after_sigkill pid (os.sigkill pid) r) in
      ((omega arith, omega arith, omega arith), omega arith)

  mark_all-counts :
      (plan survivors : List ℕ) (shells : List ShellRecord) (r : Run)
      → Same r (mark_all os plan survivors shells r)
        × ((mark_all os plan survivors shells r).stats.force_killed ≡ r.stats.force_killed)
  unfolding mark_all
  mark_all-counts plan survivors [] r = ((refl, refl, refl), refl)
  mark_all-counts plan survivors (shell ∷ shells) r =
      let ((a, b, c), k) =
        mark_all-counts plan survivors shells (mark_one os plan survivors shell r) in
      ground arith

  length-keep : (f : ℕ → Bool) (xs : List ℕ) → length (keep f xs) ≤ length xs
  length-keep f [] = omega arith
  length-keep f (x ∷ xs) = ground (arith, length-keep f xs)

-- the counts of a result
pub record IsConsistent (plan : List ℕ) (s : Stats) : Type 0 where
  pub total_is : s.total ≡ length plan
  pub sent : s.terminated ≤ s.total
  pub ended : s.clean_exits + s.force_killed ≤ s.terminated

run_plan-IsConsistent :
    (os : Os) (skipped : List Event) (plan : List ℕ)
    → IsConsistent plan (run_plan os skipped plan).stats
unfolding run_plan
run_plan-IsConsistent os skipped plan =
    let started : Run = record {
      stats = record {
        total = length plan;
        terminated = 0;
        clean_exits = 0;
        force_killed = 0;
        errors = [];
      };
      events = skipped;
      term_sent = [];
    } in
    let terminated = terminate_all os plan started in
    let (h1, l1, t1, f1) = terminate_all-counts os plan started refl in
    let survivors = keep os.live_after terminated.term_sent in
    let counted : Run = record terminated {
      stats = record terminated.stats {
        clean_exits = length terminated.term_sent - length survivors;
      };
    } in
    let ((a2, b2, c2), k2) = kill_all-counts os survivors counted in
    let ((a3, b3, c3), k3) =
      mark_all-counts os plan survivors os.running (kill_all os survivors counted) in
    let fewer = length-keep os os.live_after terminated.term_sent in
    record { total_is = omega arith; sent = omega arith; ended = omega arith }

-- The counts of a shutdown fit together, however the processes react: the total is the number of
-- pids in the plan, at most as many were sent SIGTERM, and clean exits and forced kills together
-- are at most as many as were sent SIGTERM.
pub shutdown_process_tree-IsConsistent :
    (os : Os) (kind target : String) (root_pids : List ℕ) (note : String)
    (started_at_ms ended_at_ms : ℕ)
    → IsConsistent
        (plan_of os root_pids).1
        (shutdown_process_tree os kind target root_pids note started_at_ms ended_at_ms).stats
unfolding shutdown_process_tree
shutdown_process_tree-IsConsistent os kind target root_pids note started_at_ms ended_at_ms =
    run_plan-IsConsistent os (plan_of os root_pids).0 (plan_of os root_pids).1
