-- ===== src/Examples/Processes.antt =====
-- Six processes; the runtime of src/native_runtime.rs is 20, its shell is 30.
use ferrous_framework.Base.{ℕ, ◌≡◌, refl, ◌↔◌, ◌==◌, true, false, some, List, [], ◌∷◌, All, arith}
use ferrous_framework.ProcessTree.Defs.{ProcfsEntry, mem, entry_of, kill_plan, shutdown_plan_pids}
use ferrous_framework.ProcessTree.Plan.{InTree, shutdown_plan_pids-InTree}
use ferrous_framework.ProcessTree.Protected.{Ancestor, self, parent, kill_plan-Ancestor}
use ferrous_framework.Shutdown.Defs.{Os, delivered, plan_of, shutdown_process_tree}
use ferrous_framework.Shutdown.Counts.{IsConsistent, shutdown_process_tree-IsConsistent}
use ferrous_framework.Shutdown.Spared.{Spares, shutdown_process_tree-Spares}

abbrev process : ℕ → ℕ → ProcfsEntry
process pid ppid = record { pid = pid; ppid = ppid; state = b'S' }

abbrev snapshot : List ProcfsEntry
snapshot =
    process 31 30 ∷ process 1 0 ∷ process 10 1 ∷ process 20 10 ∷ process 30 20 ∷ process 40 1 ∷ []

shutdown_plan_pids-InTree_example :
    (mem 31 (shutdown_plan_pids (30 ∷ []) snapshot) ≡ true) ↔ InTree (30 ∷ []) snapshot 31
shutdown_plan_pids-InTree_example = shutdown_plan_pids-InTree (30 ∷ []) snapshot 31

known : entry_of 20 snapshot ≡ some (process 20 10)
unfolding entry_of
known = refl

parent_of_runtime : Ancestor 20 snapshot 10
parent_of_runtime = parent 20 (process 20 10) (self (omega arith)) known (omega arith)

kill_plan-Ancestor_example : mem 10 (kill_plan 20 (10 ∷ 30 ∷ []) snapshot) ≡ false
kill_plan-Ancestor_example = kill_plan-Ancestor 20 (10 ∷ 30 ∷ []) snapshot 10 parent_of_runtime

-- process 31 does not react to SIGTERM
abbrev os : Os
os = record {
  own_pid = 20;
  snapshot = snapshot;
  running = [];
  live_before = λ _. true;
  sigterm = λ _. delivered;
  live_after = λ pid. pid == 31;
  sigkill = λ _. delivered;
  live_at_end = λ _. false;
  marks = λ _ _. true;
}

shutdown_process_tree-IsConsistent_example :
    IsConsistent
      (plan_of os (10 ∷ [])).1
      (shutdown_process_tree os "shutdown_tree" "10" (10 ∷ []) "n" 5 9).stats
shutdown_process_tree-IsConsistent_example =
    shutdown_process_tree-IsConsistent os "shutdown_tree" "10" (10 ∷ []) "n" 5 9

shutdown_process_tree-Spares_example :
    All (Spares 10) (shutdown_process_tree os "shutdown_tree" "10" (10 ∷ []) "n" 5 9).events
shutdown_process_tree-Spares_example =
    shutdown_process_tree-Spares os "shutdown_tree" "10" (10 ∷ []) "n" 5 9 10 parent_of_runtime
