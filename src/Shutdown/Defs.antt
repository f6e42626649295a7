-- ===== src/Shutdown/Defs.antt =====
-- `shutdown_process_tree_blocking` of src/native_runtime.rs. `Os` is what it takes from the operating
-- system: each process of the plan is asked for once in each phase, and the two waits stand between the
-- phases. A message of `events` or `errors` is a constructor with the pid that it is about.
use ferrous_framework.Base.{
  ℕ, ◌+◌, ◌-◌, String, Bool, true, false, ◌&&◌, not, Option, some, List, [], ◌∷◌, ◌++◌, length,
  keep, if◌then◌else◌,
}
use ferrous_framework.Shell.Record.{ShellRecord}
use ferrous_framework.ProcessTree.Defs.{
  ProcfsEntry, mem, normalize_pids, protected_process_pids, shutdown_plan_pids,
}

-- `Result<bool>` of `signal_pid`: `Ok(true)`, `Ok(false)` and an error
pub data Signalled : Type 0 where
  delivered missing failed : Signalled

pub data Event : Type 0 where
  skipped_protected already_exited sent_sigterm exited_before_sigterm sent_sigkill
        exited_before_sigkill :
      ℕ → Event

pub data Failure : Type 0 where
  not_signalled : ℕ → Failure
  not_marked : String → Failure

-- `running` is the records of the running shells; `marks` whether `mark_record_exited` succeeds.
pub record Os : Type 0 where
  pub own_pid : ℕ
  pub snapshot : List ProcfsEntry
  pub running : List ShellRecord
  pub live_before : ℕ → Bool
  pub sigterm : ℕ → Signalled
  pub live_after : ℕ → Bool
  pub sigkill : ℕ → Signalled
  pub live_at_end : ℕ → Bool
  pub marks : ShellRecord → ℕ → Bool

-- `FerrousShutdownStats`
pub record Stats : Type 0 where
  pub total : ℕ
  pub terminated : ℕ
  pub clean_exits : ℕ
  pub force_killed : ℕ
  pub errors : List Failure

-- `FerrousShutdownResult`
pub record ShutdownResult : Type 0 where
  pub ok : Bool
  pub kind : String
  pub target : String
  pub started_at_ms : ℕ
  pub ended_at_ms : ℕ
  pub elapsed_ms : ℕ
  pub root_pids : List ℕ
  pub stats : Stats
  pub events : List Event
  pub note : Option String

-- the variables that the phases share
pub record Run : Type 0 where
  pub stats : Stats
  pub events : List Event
  pub term_sent : List ℕ

-- the loop over the plan
unfoldable pub split_plan : List ℕ → List ℕ → List Event × List ℕ
split_plan protected [] = ([], [])
split_plan protected (pid ∷ plan) =
    let later = split_plan protected plan in
    if mem pid protected
    then (skipped_protected pid ∷ later.0, later.1)
    else (later.0, pid ∷ later.1)

abbrev pub note_event : Event → Run → Run
note_event e r = record r { events = r.events ++ e ∷ [] }

abbrev pub note_failure : Failure → Run → Run
note_failure f r = record r { stats = record r.stats { errors = r.stats.errors ++ f ∷ [] } }

abbrev pub after_sigterm : ℕ → Signalled → Run → Run
after_sigterm pid delivered r = record r {
  stats = record r.stats { terminated = r.stats.terminated + 1 };
  term_sent = r.term_sent ++ pid ∷ [];
  events = r.events ++ sent_sigterm pid ∷ [];
}
after_sigterm pid missing r = note_event (exited_before_sigterm pid) r
after_sigterm pid failed r = note_failure (not_signalled pid) r

abbrev pub after_sigkill : ℕ → Signalled → Run → Run
after_sigkill pid delivered r = record r {
  stats = record r.stats { force_killed = r.stats.force_killed + 1 };
  events = r.events ++ sent_sigkill pid ∷ [];
}
after_sigkill pid missing r = note_event (exited_before_sigkill pid) r
after_sigkill pid failed r = note_failure (not_signalled pid) r

abbrev pub is_empty {ℓ} : {A : Type ℓ} → List A → Bool
is_empty [] = true
is_empty (x ∷ xs) = false

-- `-libc::SIGKILL` and `-libc::SIGTERM` as the bit patterns of an i32
abbrev pub killed_code : ℕ
killed_code = 4294967287

abbrev pub terminated_code : ℕ
terminated_code = 4294967281

module _ (os : Os) where
  abbrev pub terminate_one : ℕ → Run → Run
  terminate_one pid r =
      if os.live_before pid
      then after_sigterm pid (os.sigterm pid) r
      else note_event (already_exited pid) r

  unfoldable pub terminate_all : List ℕ → Run → Run
  terminate_all [] r = r
  terminate_all (pid ∷ pids) r = terminate_all pids (terminate_one pid r)

  unfoldable pub kill_all : List ℕ → Run → Run
  kill_all [] r = r
  kill_all (pid ∷ pids) r = kill_all pids (after_sigkill pid (os.sigkill pid) r)

  abbrev pub mark_one : List ℕ → List ℕ → ShellRecord → Run → Run
  mark_one plan survivors shell r =
      let exit_code = if mem shell.pid survivors then killed_code else terminated_code in
      if mem shell.pid plan && not (os.live_at_end shell.pid) && not (os.marks shell exit_code)
      then note_failure (not_marked shell.id) r
      else r

  unfoldable pub mark_all : List ℕ → List ℕ → List ShellRecord → Run → Run
  mark_all plan survivors [] r = r
  mark_all plan survivors (shell ∷ shells) r =
      mark_all plan survivors shells (mark_one plan survivors shell r)

  -- from the plan without the protected pids to the end
  unfoldable pub run_plan : List Event → List ℕ → Run
  run_plan skipped plan =
      let started : Run = record {
        stats = record {
          total = length plan;
          terminated = 0;
          clean_exits = 0;
          force_killed = 0;
          errors = [];
        };
        events = skipped;
        term_sent = [];
      } in
      let terminated = terminate_all plan started in
      let survivors = keep os.live_after terminated.term_sent in
      let counted : Run = record terminated {
        stats = record terminated.stats {
          clean_exits = length terminated.term_sent - length survivors;
        };
      } in
      mark_all plan survivors os.running (kill_all survivors counted)

  unfoldable pub plan_of : List ℕ → List Event × List ℕ
  plan_of root_pids =
      split_plan (protected_process_pids os.own_pid os.snapshot)
        (shutdown_plan_pids (normalize_pids root_pids) os.snapshot)

  unfoldable pub shutdown_process_tree : String → String → List ℕ → String → ℕ → ℕ → ShutdownResult
  shutdown_process_tree kind target root_pids note started_at_ms ended_at_ms =
      let (skipped, plan) = plan_of root_pids in
      let r = run_plan skipped plan in
      record {
        ok = is_empty r.stats.errors;
        kind = kind;
        target = target;
        started_at_ms = started_at_ms;
        ended_at_ms = ended_at_ms;
        elapsed_ms = ended_at_ms - started_at_ms;
        root_pids = normalize_pids root_pids;
        stats = r.stats;
        events = r.events;
        note = some note;
      }
