-- ===== src/Orchestration/Watchdog/Events.antt =====
-- packages/orchestration/src/watchdog.ts: what the watchdog observes of a turn. An event comes as what
-- the class reads from it: the tokens that readObservedTurnTokens finds, its type, the tool calls that
-- extractToolCallsFromModelMessage finds, and the id of the call that it responds to.
use forge_room.Base.{
  ℕ, String, Bool, true, false, not, Option, none, some, if◌then◌else◌, ltb, ◌==◌, string_eq, List,
  [], ◌∷◌, includes, any, filter, length, ◌||◌,
}
use forge_room.Orchestration.Watchdog.State.{
  ApplicationWatchdogLimits, Timer, Watchdog, exceed, finish_run, finish_sandbox_command, get_run,
  observed_token_limit, observed_tool_call_limit, run_timeout, run_timer, same_timer,
  sandbox_command_timeout, sandbox_timer, set_run, start_run, start_sandbox_command, stop,
}

pub record ToolCall : Type 0 where
  pub id : String
  pub is_sandbox_command : Bool

pub record ObservedEvent : Type 0 where
  pub observed_tokens : Option ℕ
  pub event_type : String
  pub tool_calls : List ToolCall
  pub response_id : Option String

abbrev pub max : ℕ → ℕ → ℕ
max a b = if ltb a b then b else a

-- A state, and whether the handler has returned.
abbrev pub Round : Type 0
Round = Watchdog × Bool

-- What happens to a watchdog from outside.
pub data Occurrence : Type 0 where
  starts : (agent_turn_id run_id run_step_id : String) → Occurrence
  observes : (agent_turn_id : String) → ObservedEvent → Occurrence
  fires : Timer → Occurrence
  finishes : (agent_turn_id : String) → Occurrence
  stops : Occurrence

module _ (limits : ApplicationWatchdogLimits) where
  unfoldable pub observe_tokens : String → Option ℕ → Watchdog → Round
  observe_tokens id none w = (w, false)
  observe_tokens id (some tokens) w = elim (get_run id w.runs) [
    | none ↦ (w, false)
    | some run ↦
        let total = max run.observed_turn_tokens tokens in
        let w' = record w {
          runs = set_run id (record run { observed_turn_tokens = total }) w.runs;
        } in
        if ltb limits.max_observed_turn_tokens total
        then (exceed id observed_token_limit total limits.max_observed_turn_tokens none w', true)
        else (w', false)
  ]

  -- One round of the loop over the tool calls. The run stays registered until the loop ends or
  -- returns, so that it is looked up again where the source holds its object.
  unfoldable pub observe_call : String → ToolCall → Watchdog → Round
  observe_call id call w = elim (get_run id w.runs) [
    | none ↦ (w, false)
    | some run ↦
        if includes run.seen_tool_call_ids call.id
        then (w, false)
        else let seen = call.id ∷ run.seen_tool_call_ids in
          let w' = record w {
            runs = set_run id (record run { seen_tool_call_ids = seen }) w.runs;
          } in
          if ltb limits.max_observed_tool_calls (length seen)
          then (
            exceed id observed_tool_call_limit (length seen) limits.max_observed_tool_calls none w',
            true,
          )
          else if call.is_sandbox_command
          then (start_sandbox_command id call.id w', false)
          else (w', false)
  ]

  unfoldable pub observe_calls : String → List ToolCall → Watchdog → Round
  observe_calls id [] w = (w, false)
  observe_calls id (call ∷ calls) w =
      let (w', done) = observe_call id call w in
      let rest = observe_calls id calls w' in if done then (w', true) else rest

  abbrev pub ends_run : String → Bool
  ends_run t = t == "turn.done" || t == "turn.error" || t == "turn.failed" || t == "session.error"

  abbrev pub finish_response : String → Option String → Watchdog → Watchdog
  finish_response id none w = w
  finish_response id (some call) w = finish_sandbox_command id call w

  -- From the tool calls of the event on.
  unfoldable pub observe_rest : String → ObservedEvent → Watchdog → Watchdog
  observe_rest id event w =
      let called =
        if event.event_type == "model.message"
        then observe_calls id event.tool_calls w
        else (w, false) in
      if called.1
      then called.0
      else let answered =
          if event.event_type == "tool.response"
          then finish_response id event.response_id called.0
          else called.0 in
        if ends_run event.event_type then finish_run id answered else answered

  unfoldable pub observe_true_forge_event : String → ObservedEvent → Watchdog → Watchdog
  observe_true_forge_event id event w = elim (get_run id w.runs) [
    | none ↦ w
    | some run ↦
        if run.exceeded
        then w
        else let counted = observe_tokens id event.observed_tokens w in
          if counted.1 then counted.0 else observe_rest id event counted.0
  ]

  abbrev pub go_off : Timer → Watchdog → Watchdog
  go_off (run_timer id) w = exceed id run_timeout limits.run_ms limits.run_ms none w
  go_off (sandbox_timer id call) w =
      exceed id sandbox_command_timeout limits.sandbox_command_ms limits.sandbox_command_ms
        (some call) w

  -- A pending timer goes off once; one that was cleared does not.
  unfoldable pub fire : Timer → Watchdog → Watchdog
  fire timer w =
      if any (same_timer timer) w.pending
      then go_off timer (record w { pending = filter (λ t. not (same_timer timer t)) w.pending })
      else w

  unfoldable pub perform : Occurrence → Watchdog → Watchdog
  perform (starts id run_id run_step_id) w = start_run id run_id run_step_id w
  perform (observes id event) w = observe_true_forge_event id event w
  perform (fires timer) w = fire timer w
  perform (finishes id) w = finish_run id w
  perform stops w = stop w

  unfoldable pub perform_all : List Occurrence → Watchdog → Watchdog
  perform_all [] w = w
  perform_all (operation ∷ operations) w = perform_all operations (perform operation w)
