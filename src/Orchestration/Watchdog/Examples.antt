-- ===== src/Orchestration/Watchdog/Examples.antt =====
-- Two runs: one goes over its limit of tokens, the other calls a tool.
use forge_room.Base.{◌≤◌, length, true, false, List, [], ◌∷◌, none, some, refl}
use forge_room.Orchestration.Watchdog.State.{
  p0_application_watchdog_limits, ActiveRun, start_watchdog, get_run, start_run,
  start_sandbox_command, set_run, exceed, finish_run, delete_run,
}
use forge_room.Orchestration.Watchdog.Events.{
  ObservedEvent, Occurrence, starts, observes, perform_all, perform, observe_true_forge_event,
  observe_tokens, observe_rest, observe_calls, observe_call,
}
use forge_room.Orchestration.Watchdog.Registry.{IsWithin}
use forge_room.Orchestration.Watchdog.Laws.{
  starts_of, reports_within_starts, registered_keep_limits,
}

abbrev many_tokens : ObservedEvent
many_tokens = record {
  observed_tokens = some 12001;
  event_type = "turn.usage";
  tool_calls = [];
  response_id = none;
}

abbrev one_call : ObservedEvent
one_call = record {
  observed_tokens = some 40;
  event_type = "model.message";
  tool_calls = record { id = "c1"; is_sandbox_command = true } ∷ [];
  response_id = none;
}

abbrev two_runs : List Occurrence
two_runs =
    starts "t1" "r1" "s1"
    ∷ starts "t2" "r1" "s2"
    ∷ observes "t1" many_tokens
    ∷ observes "t2" one_call
    ∷ []

abbrev second_run : ActiveRun
second_run = record {
  run_id = "r1";
  run_step_id = "s2";
  observed_turn_tokens = 40;
  seen_tool_call_ids = "c1" ∷ [];
  sandbox_timers = "c1" ∷ [];
  exceeded = false;
}

reports_within_starts_example :
    length (perform_all p0_application_watchdog_limits two_runs start_watchdog).reports
    ≤ starts_of two_runs
reports_within_starts_example = reports_within_starts p0_application_watchdog_limits two_runs

registered_keep_limits_example : IsWithin p0_application_watchdog_limits second_run
unfolding perform_all perform start_run observe_true_forge_event observe_tokens observe_rest
    observe_calls observe_call start_sandbox_command get_run set_run exceed finish_run delete_run
registered_keep_limits_example =
    registered_keep_limits p0_application_watchdog_limits two_runs "t2" second_run refl
