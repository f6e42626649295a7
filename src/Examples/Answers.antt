-- ===== src/Examples/Answers.antt =====
-- The result of a shutdown that is sent as JSON (src/shutdown.rs).
use ferrous_framework.Base.{◌≡◌, arith, true, none, [], ◌∷◌, ok}
use ferrous_framework.Json.{unsigned}
use ferrous_framework.Shutdown.Parse.{
  ParsedResult, result_to_json, parse_shutdown_result, parse-result_to_json,
}

abbrev answer : ParsedResult
answer = record {
  is_ok = true;
  kind = "shutdown_all";
  target = "all";
  started_at_ms = 5;
  ended_at_ms = 9;
  elapsed_ms = 4;
  root_pids = unsigned 42 ∷ [];
  stats = record {
    total = 1;
    terminated = 1;
    clean_exits = 1;
    force_killed = 0;
    errors = "none" ∷ [];
  };
  events = "sent SIGTERM to pid 42" ∷ [];
  note = none;
}

parse-result_to_json_example : parse_shutdown_result (result_to_json answer) ≡ ok answer
parse-result_to_json_example = parse-result_to_json answer (omega arith, tt)
