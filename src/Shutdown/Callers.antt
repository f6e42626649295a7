-- ===== src/Shutdown/Callers.antt =====
-- `running_fws_records`, `shutdown_app_group_blocking`, `shutdown_tree_blocking` and `shutdown_all_blocking` of
-- src/native_runtime.rs, which choose the roots of a shutdown. `live` is the liveness test and `print_pid` how a pid prints.
use ferrous_framework.Base.{
  ℕ, String, str_eq, Bool, false, ◌&&◌, Option, none, some, List, [], ◌∷◌, map, keep,
}
use ferrous_framework.LogProjection.Pointer.{concat}
use ferrous_framework.Shell.Record.{is_running, ShellRecord}
use ferrous_framework.Shell.Persist.{Host}
use ferrous_framework.Manager.Defs.{Manager, list_shells, live_records}
use ferrous_framework.Shutdown.Defs.{Os, ShutdownResult, shutdown_process_tree}

abbrev pub pid_of : ShellRecord → ℕ
pid_of shell = shell.pid

-- `ToString::to_string` and `join(",")`
unfoldable pub join_pids : (ℕ → String) → List ℕ → String
unfolding concat
join_pids print_pid [] = ""
join_pids print_pid (pid ∷ []) = print_pid pid
join_pids print_pid (pid ∷ (next ∷ pids)) =
    concat (print_pid pid) (concat "," (join_pids print_pid (next ∷ pids)))

abbrev pub is_of_app : String → Option String → Bool
is_of_app app_id none = false
is_of_app app_id (some id) = str_eq id app_id

abbrev pub target_of : (ℕ → String) → List ℕ → String
target_of print_pid [] = "all"
target_of print_pid (pid ∷ pids) = join_pids print_pid (pid ∷ pids)

module _ (host : Host) (live : ℕ → Bool) (print_pid : ℕ → String) (os : Os) (m : Manager) where
  abbrev pub runs_live : ShellRecord → Bool
  runs_live shell = is_running shell.status && live shell.pid

  unfoldable pub running_fws_records : List ShellRecord
  unfolding list_shells
  running_fws_records = keep runs_live (list_shells host m)

  -- the records of the running shells are read at the start of the shutdown
  abbrev pub os_now : Os
  os_now = record os { running = running_fws_records }

  unfoldable pub shutdown_app_group : String → ℕ → ℕ → ShutdownResult
  unfolding running_fws_records shutdown_process_tree
  shutdown_app_group app_id started_at_ms ended_at_ms =
      shutdown_process_tree os_now "shutdown_group" app_id
        (map pid_of (keep (λ shell. is_of_app app_id shell.app_id) running_fws_records))
        "Ferrous native group shutdown terminates matching FWS roots and descendants" started_at_ms
        ended_at_ms

  abbrev pub selected_roots : List ℕ → List ℕ
  selected_roots [] = map pid_of (keep runs_live (live_records m))
  selected_roots (pid ∷ pids) = pid ∷ pids

  unfoldable pub shutdown_tree : List ℕ → ℕ → ℕ → ShutdownResult
  unfolding live_records join_pids running_fws_records shutdown_process_tree
  shutdown_tree root_pids started_at_ms ended_at_ms =
      let roots = selected_roots root_pids in
      shutdown_process_tree os_now "shutdown_tree" (target_of print_pid roots) roots
        "Ferrous native tree shutdown terminates manager-owned roots and descendants" started_at_ms
        ended_at_ms

  unfoldable pub shutdown_all : ℕ → ℕ → ShutdownResult
  unfolding shutdown_tree
  shutdown_all started_at_ms ended_at_ms = record (shutdown_tree [] started_at_ms ended_at_ms) {
    kind = "shutdown_all";
    target = "all";
    note = some "Ferrous native all shutdown terminates manager-owned roots and descendants";
  }
