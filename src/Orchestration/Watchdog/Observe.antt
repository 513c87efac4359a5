-- ===== src/Orchestration/Watchdog/Observe.antt =====
-- One event of a turn, for packages/orchestration/src/watchdog.ts.
use forge_room.Base.{
  ℕ, String, Bool, true, false, Option, none, some, inl, inr, List, [], ◌∷◌, arith, length,
  includes, ◌==◌, string_eq, Bool-cases, Option-cases, ltb, if◌then◌else◌,
}
use forge_room.Orchestration.Watchdog.State.{
  ApplicationWatchdogLimits, ActiveRun, Runs, get_run, set_run, delete_run, Watchdog, finish_run,
  observed_token_limit, observed_tool_call_limit,
}
use forge_room.Orchestration.Watchdog.Events.{
  ToolCall, ObservedEvent, max, observe_tokens, observe_call, observe_calls, ends_run,
  finish_response, observe_rest, observe_true_forge_event,
}
use forge_room.Orchestration.Watchdog.Registry.{
  length-set_run, get_run-set_run, delete_run-set_run, AllWithin, get_run-IsWithin,
  delete_run-AllWithin,
}
use forge_room.Orchestration.Watchdog.Sound.{
  IsSound, finish_run-IsSound, exceed-IsSound, set_run-IsSound, start_sandbox-IsSound,
  finish_sandbox-IsSound,
}

module _ (limits : ApplicationWatchdogLimits) where
  -- The registry after a write, when the run leaves it at once.
  left_within :
      (id : String) (run : ActiveRun) (runs : Runs)
      → AllWithin limits runs
      → AllWithin limits (delete_run id (set_run id run runs))
  left_within id run runs a =
      rw (delete_run-set_run id run runs) (delete_run-AllWithin limits id runs a)

  observe_tokens-IsSound :
      (n : ℕ) (id : String) (observed : Option ℕ) (w : Watchdog)
      → IsSound limits n w
      → IsSound limits n (observe_tokens limits id observed w).0
  unfolding observe_tokens
  observe_tokens-IsSound n id none w s = s
  observe_tokens-IsSound n id (some tokens) w s = elim (Option-cases (get_run id w.runs)) [
    | inl absent ↦ rw (absent, observe_tokens) s
    | inr (run, there) ↦
        let keeps = get_run-IsWithin limits id run w.runs s.within there in
        let total = max run.observed_turn_tokens tokens in
        let run' = record run { observed_turn_tokens = total } in
        elim (Bool-cases (ltb limits.max_observed_turn_tokens total)) [
          | inl over ↦
              rw (there, over, observe_tokens)
                (exceed-IsSound limits n id observed_token_limit total
                  limits.max_observed_turn_tokens none run'
                  (record w { runs = set_run id run' w.runs })
                  (get_run-set_run id run' run w.runs there) keeps.unreported
                  (omega (arith, s.few, length-set_run id run' w.runs))
                  (left_within id run' w.runs s.within))
          | inr under ↦
              rw (there, under, observe_tokens)
                (set_run-IsSound limits n id run' w.pending w
                  (record {
                    unreported = keeps.unreported;
                    tokens = ground arith;
                    tool_calls = keeps.tool_calls;
                  })
                  s)
        ]
  ]

  observe_call-IsSound :
      (n : ℕ) (id : String) (call : ToolCall) (w : Watchdog)
      → IsSound limits n w
      → IsSound limits n (observe_call limits id call w).0
  unfolding observe_call
  observe_call-IsSound n id call w s = elim (Option-cases (get_run id w.runs)) [
    | inl absent ↦ rw (absent, observe_call) s
    | inr (run, there) ↦ elim (Bool-cases (includes run.seen_tool_call_ids call.id)) [
      | inl old ↦ rw (there, old, observe_call) s
      | inr new ↦
          let keeps = get_run-IsWithin limits id run w.runs s.within there in
          let seen = call.id ∷ run.seen_tool_call_ids in
          let run' = record run { seen_tool_call_ids = seen } in
          let w' = record w { runs = set_run id run' w.runs } in
          elim (Bool-cases (ltb limits.max_observed_tool_calls (length seen))) [
            | inl over ↦
                rw (there, new, over, observe_call)
                  (exceed-IsSound limits n id observed_tool_call_limit (length seen)
                    limits.max_observed_tool_calls none run' w'
                    (get_run-set_run id run' run w.runs there) keeps.unreported
                    (omega (arith, s.few, length-set_run id run' w.runs))
                    (left_within id run' w.runs s.within))
            | inr under ↦
                let s' =
                  set_run-IsSound limits n id run' w.pending w
                    (record {
                      unreported = keeps.unreported;
                      tokens = keeps.tokens;
                      tool_calls = ground arith;
                    })
                    s in
                elim (Bool-cases call.is_sandbox_command) [
                  | inl sandbox ↦
                      rw (there, new, under, sandbox, observe_call)
                        (start_sandbox-IsSound limits n id call.id w' s')
                  | inr other ↦ rw (there, new, under, other, observe_call) s'
                ]
          ]
    ]
  ]

  observe_calls-IsSound :
      (n : ℕ) (id : String) (calls : List ToolCall) (w : Watchdog)
      → IsSound limits n w
      → IsSound limits n (observe_calls limits id calls w).0
  unfolding observe_calls
  observe_calls-IsSound n id [] w s = s
  observe_calls-IsSound n id (call ∷ calls) w s =
      let s' = observe_call-IsSound n id call w s in
      elim (Bool-cases (observe_call limits id call w).1) [
        | inl done ↦ rw (done, observe_calls) s'
        | inr more ↦
            rw (more, observe_calls)
              (observe_calls-IsSound n id calls (observe_call limits id call w).0 s')
      ]

  finish_response-IsSound :
      (n : ℕ) (id : String) (call : Option String) (w : Watchdog)
      → IsSound limits n w
      → IsSound limits n (finish_response limits id call w)
  finish_response-IsSound n id none w s = s
  finish_response-IsSound n id (some call) w s = finish_sandbox-IsSound limits n id call w s

  -- The last two tests of the handler.
  answer_and_end :
      (n : ℕ) (id : String) (event : ObservedEvent) (w : Watchdog) (response ends : Bool)
      → IsSound limits n w
      → let answered = if response then finish_response limits id event.response_id w else w in
        IsSound limits n (if ends then finish_run id answered else answered)
  answer_and_end n id event w true true s =
      finish_run-IsSound limits n id (finish_response limits id event.response_id w)
        (finish_response-IsSound n id event.response_id w s)
  answer_and_end n id event w true false s = finish_response-IsSound n id event.response_id w s
  answer_and_end n id event w false true s = finish_run-IsSound limits n id w s
  answer_and_end n id event w false false s = s

  observe_rest-IsSound :
      (n : ℕ) (id : String) (event : ObservedEvent) (w : Watchdog)
      → IsSound limits n w
      → IsSound limits n (observe_rest limits id event w)
  unfolding observe_rest
  observe_rest-IsSound n id event w s = elim (Bool-cases (event.event_type == "model.message")) [
    | inr other ↦
        rw (other, observe_rest)
          (answer_and_end n id event w (event.event_type == "tool.response")
            (ends_run limits event.event_type) s)
    | inl message ↦
        let called = observe_calls limits id event.tool_calls w in
        let s' = observe_calls-IsSound n id event.tool_calls w s in
        elim (Bool-cases called.1) [
          | inl done ↦ rw (message, done, observe_rest) s'
          | inr more ↦
              rw (message, more, observe_rest)
                (answer_and_end n id event called.0 (event.event_type == "tool.response")
                  (ends_run limits event.event_type) s')
        ]
  ]

  pub observe-IsSound :
      (n : ℕ) (id : String) (event : ObservedEvent) (w : Watchdog)
      → IsSound limits n w
      → IsSound limits n (observe_true_forge_event limits id event w)
  unfolding observe_true_forge_event
  observe-IsSound n id event w s = elim (Option-cases (get_run id w.runs)) [
    | inl absent ↦ rw (absent, observe_true_forge_event) s
    | inr (run, there) ↦
        let keeps = get_run-IsWithin limits id run w.runs s.within there in
        let counted = observe_tokens limits id event.observed_tokens w in
        let s' = observe_tokens-IsSound n id event.observed_tokens w s in
        elim (Bool-cases counted.1) [
          | inl done ↦ rw (there, keeps.unreported, done, observe_true_forge_event) s'
          | inr more ↦
              rw (there, keeps.unreported, more, observe_true_forge_event)
                (observe_rest-IsSound n id event counted.0 s')
        ]
  ]
