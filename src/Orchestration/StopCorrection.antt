-- ===== src/Orchestration/StopCorrection.antt =====
-- packages/orchestration/src/stop-correction.ts: stopping a step, corrections, restarts and
-- replays.
pub mod Laws
mod Examples
use forge_room.Base.{
  ℕ, String, Bool, true, false, not, Option, none, some, if◌then◌else◌, ◌==◌, nat_eq_instance,
  string_eq, List, [], ◌∷◌, includes, sort, leb, Result, ok, err, any, ◌&&◌, ◌||◌, Eq, enum_eq,
}
use forge_room.Domain.Transitions.Step.{
  RunStepState, queued, acquiring_session, running, awaiting_input, awaiting_approval,
  blocked_connection, cancelling, cancelled, completed, failed, unknown,
}
use forge_room.Domain.Transitions.Turn.{AgentTurnState}
use forge_room.Orchestration.TurnQueue.{
  TurnQueueInputType, normal, correction, pause_group_response, component_interaction_response,
}

pub data StopDecision : Type 0 where
  enter_cancelling already_cancelling already_settled not_stoppable : StopDecision

unfoldable pub decide_stop : RunStepState → StopDecision
decide_stop cancelling = already_cancelling
decide_stop cancelled = already_settled
decide_stop completed = already_settled
decide_stop failed = already_settled
decide_stop running = enter_cancelling
decide_stop awaiting_input = enter_cancelling
decide_stop awaiting_approval = enter_cancelling
decide_stop blocked_connection = enter_cancelling
decide_stop acquiring_session = enter_cancelling
decide_stop queued = enter_cancelling
decide_stop unknown = not_stoppable

-- The field `callCancel` of a decision.
abbrev pub call_cancel : StopDecision → Bool
call_cancel enter_cancelling = true
call_cancel _ = false

unfoldable pub blocks_new_remote_turn : RunStepState → Bool
blocks_new_remote_turn cancelling = true
blocks_new_remote_turn _ = false

pub data CorrectionError : Type 0 where
  requires_prior_run_step_id requires_content : CorrectionError

pub record CorrectionQueueIntent : Type 0 where
  pub input_type : TurnQueueInputType
  pub prior_run_step_id : String
  pub content : String

-- `trim` is the method of strings.
unfoldable pub build_correction_queue_intent :
    (trim : String → String) (prior_run_step_id content : String)
    → Result CorrectionError CorrectionQueueIntent
build_correction_queue_intent trim prior content =
    if trim prior == ""
    then err requires_prior_run_step_id
    else if trim content == ""
    then err requires_content
    else ok (record { input_type = correction; prior_run_step_id = prior; content = trim content })

pub record RestartTurnMark : Type 0 where
  pub state : AgentTurnState
  pub needs_attention : Bool
  pub reason : String
  pub auto_retry : Bool

unfoldable pub mark_needs_attention_on_restart : RestartTurnMark
mark_needs_attention_on_restart = record {
  state = AgentTurnState.uncertain;
  needs_attention = true;
  reason = "process_restart";
  auto_retry = false;
}

abbrev pub restart_active_turn_states : List AgentTurnState
restart_active_turn_states =
    AgentTurnState.acquiring ∷ AgentTurnState.creating ∷ AgentTurnState.streaming
    ∷ AgentTurnState.resuming ∷ []

-- The loop of `dedupeReplayEnvelopes`, over any envelopes that carry a channel sequence.
module _ {ℓ} {A : Type ℓ} (channel_sequence : A → ℕ) where
  unfoldable pub dedupe_from : List ℕ → List A → List A
  dedupe_from seen [] = []
  dedupe_from seen (x ∷ xs) =
      let fresh = x ∷ dedupe_from (channel_sequence x ∷ seen) xs in
      let rest = dedupe_from seen xs in if includes seen (channel_sequence x) then rest else fresh

  unfoldable pub dedupe_replay_envelopes : List A → List A
  unfolding dedupe_from
  dedupe_replay_envelopes envelopes =
      dedupe_from [] (sort (λ a b. leb (channel_sequence a) (channel_sequence b)) envelopes)

pub data McpInFlightOutcome : Type 0 where
  mcp_completed mcp_unknown : McpInFlightOutcome

unfoldable pub render_in_flight_mcp_outcome : Bool → McpInFlightOutcome
render_in_flight_mcp_outcome true = mcp_completed
render_in_flight_mcp_outcome false = mcp_unknown
