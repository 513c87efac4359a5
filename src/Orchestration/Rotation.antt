-- ===== src/Orchestration/Rotation.antt =====
-- packages/orchestration/src/session-rotation.ts: the plan of a session rotation.
pub mod Laws
mod Examples
use forge_room.Base.{String, Bool, true, false, ◌&&◌, ◌||◌, List, Option, none, some}
use forge_room.Orchestration.TurnQueue.{
  TurnQueueInputType, normal, correction, pause_group_response, component_interaction_response,
}
use forge_room.Orchestration.StopCorrection.{McpInFlightOutcome, render_in_flight_mcp_outcome}
use forge_room.Orchestration.Capability.{is_capability_restriction}

pub data SessionRotationReason : Type 0 where
  grant_add grant_remove account_revoke policy_tighten component_grant component_revoke :
      SessionRotationReason
  descriptor_drift skill_attach skill_detach configuration_changed reconnect : SessionRotationReason

-- The literal fields of the plan are Boolean fields here.
pub record SessionRotationPlan : Type 0 where
  pub reason : SessionRotationReason
  pub is_restriction : Bool
  pub block_claims : Bool
  pub request_active_turn_cancellation : Bool
  pub stale_unresolved_actions : Bool
  pub create_new_session_revision : Bool
  pub create_new_trueforge_session : Bool
  pub atomic_swap_current_generation : Bool
  pub rebind_normal_queue_items : Bool
  pub migrate_response_intents : Bool
  pub retain_old_generation_for_audit : Bool
  pub old_generation_accepts_new_work : Bool
  pub mcp_in_flight : Option McpInFlightOutcome
  pub affected_session_scope : String

-- `restrictionReasons.includes(reason)`
abbrev pub restricts : SessionRotationReason → Bool
restricts grant_remove = true
restricts account_revoke = true
restricts policy_tighten = true
restricts component_revoke = true
restricts descriptor_drift = true
restricts _ = false

abbrev pub render_known : Option Bool → Option McpInFlightOutcome
render_known none = none
render_known (some known_terminal) = some (render_in_flight_mcp_outcome known_terminal)

unfoldable pub plan_session_rotation :
    SessionRotationReason
    → (previous_tools next_tools : List String) → (has_active_turn : Bool)
    → (mcp_in_flight_known_terminal : Option Bool) → SessionRotationPlan
plan_session_rotation reason previous next has_active_turn known =
    let is_restriction = restricts reason || is_capability_restriction previous next in
    record {
      reason = reason;
      is_restriction = is_restriction;
      block_claims = true;
      request_active_turn_cancellation = is_restriction && has_active_turn;
      stale_unresolved_actions = is_restriction;
      create_new_session_revision = true;
      create_new_trueforge_session = true;
      atomic_swap_current_generation = true;
      rebind_normal_queue_items = true;
      migrate_response_intents = false;
      retain_old_generation_for_audit = true;
      old_generation_accepts_new_work = false;
      mcp_in_flight = render_known known;
      affected_session_scope = "coworker_sessions_only";
    }

pub data QueueItemRebindDecision : Type 0 where
  rebind_to_current never_migrate : QueueItemRebindDecision

unfoldable pub decide_queue_item_rebind : TurnQueueInputType → QueueItemRebindDecision
decide_queue_item_rebind normal = rebind_to_current
decide_queue_item_rebind correction = rebind_to_current
decide_queue_item_rebind pause_group_response = never_migrate
decide_queue_item_rebind component_interaction_response = never_migrate
