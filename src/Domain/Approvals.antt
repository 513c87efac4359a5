-- ===== src/Domain/Approvals.antt =====
-- packages/domain/src/approvals/decision.ts: the approval card and the gate of a decision.
-- A date is the number of milliseconds since the earliest date of ECMAScript.
pub mod Laws
mod Examples
use forge_room.Base.{
  ℕ, String, Bool, true, false, ◌&&◌, ◌||◌, not, Option, none, some, if◌then◌else◌, ◌==◌, leb,
  string_eq, nat_eq_instance,
}
use forge_room.Base.Json.{Json}

pub record ActingIdentity : Type 0 where
  pub service : String
  pub account_display : String
  pub principal_type : String
  pub principal_display : String
  pub principal_id_hash : String

pub data RiskClass : Type 0 where
  low medium high : RiskClass

pub record ProposalDecisionSnapshot : Type 0 where
  pub id : String
  pub required_action_id : String
  pub pause_group_id : String
  pub channel_id : String
  pub run_id : String
  pub run_step_id : String
  pub agent_turn_id : String
  pub coworker_id : String
  pub coworker_handle : String
  pub coworker_name : String
  pub logical_thread_id : String
  pub tool_call_id : String
  pub tool_name : String
  pub observed_descriptor_hash : String
  pub approval_policy_hash : String
  pub connector_binding_id : String
  pub account_id : String
  pub acting_identity : ActingIdentity
  pub redacted_arguments : Json
  pub arguments_hash : String
  pub redacted_target : Json
  pub target_hash : String
  pub artifact_revision_hash : Option String
  pub expected_effect : String
  pub risk_class : RiskClass
  pub payload_hash : String
  pub session_generation : ℕ
  pub session_generation_id : String
  pub live_approval_policy_hash : String
  pub live_session_generation : ℕ
  pub state : String
  pub expires_at : String
  pub provider_idempotency_key : Option String

pub record ApprovalCard : Type 0 where
  pub schema_version : ℕ
  pub proposal_id : String
  pub required_action_id : String
  pub pause_group_id : String
  pub channel_id : String
  pub run_id : String
  pub run_step_id : String
  pub agent_turn_id : String
  pub coworker_id : String
  pub coworker_handle : String
  pub coworker_name : String
  pub logical_thread_id : String
  pub tool_call_id : String
  pub tool_name : String
  pub observed_descriptor_hash : String
  pub approval_policy_hash : String
  pub connector_binding_id : String
  pub account_id : String
  pub acting_identity : ActingIdentity
  pub redacted_arguments : Json
  pub arguments_hash : String
  pub redacted_target : Json
  pub target_hash : String
  pub artifact_revision_hash : Option String
  pub expected_effect : String
  pub risk_class : RiskClass
  pub payload_hash : String
  pub session_generation : ℕ
  pub session_generation_id : String
  pub state : String
  pub expires_at : String
  pub provider_idempotency_key : Option String

unfoldable pub build_approval_card : ProposalDecisionSnapshot → ApprovalCard
build_approval_card snapshot = record {
  schema_version = 1;
  proposal_id = snapshot.id;
  required_action_id = snapshot.required_action_id;
  pause_group_id = snapshot.pause_group_id;
  channel_id = snapshot.channel_id;
  run_id = snapshot.run_id;
  run_step_id = snapshot.run_step_id;
  agent_turn_id = snapshot.agent_turn_id;
  coworker_id = snapshot.coworker_id;
  coworker_handle = snapshot.coworker_handle;
  coworker_name = snapshot.coworker_name;
  logical_thread_id = snapshot.logical_thread_id;
  tool_call_id = snapshot.tool_call_id;
  tool_name = snapshot.tool_name;
  observed_descriptor_hash = snapshot.observed_descriptor_hash;
  approval_policy_hash = snapshot.approval_policy_hash;
  connector_binding_id = snapshot.connector_binding_id;
  account_id = snapshot.account_id;
  acting_identity = snapshot.acting_identity;
  redacted_arguments = snapshot.redacted_arguments;
  arguments_hash = snapshot.arguments_hash;
  redacted_target = snapshot.redacted_target;
  target_hash = snapshot.target_hash;
  artifact_revision_hash = snapshot.artifact_revision_hash;
  expected_effect = snapshot.expected_effect;
  risk_class = snapshot.risk_class;
  payload_hash = snapshot.payload_hash;
  session_generation = snapshot.session_generation;
  session_generation_id = snapshot.session_generation_id;
  state = snapshot.state;
  expires_at = snapshot.expires_at;
  provider_idempotency_key = snapshot.provider_idempotency_key;
}

-- The fields of the command that the gate reads.
pub record ApprovalDecisionCommand : Type 0 where
  pub expected_arguments_hash : String
  pub expected_descriptor_hash : String
  pub expected_session_generation : ℕ

pub data GateReason : Type 0 where
  not_found decision_already_recorded expired_proposal stale_proposal forbidden_state : GateReason

pub data Mark : Type 0 where
  mark_expired mark_stale : Mark

pub data GateResult : Type 0 where
  pass : GateResult
  refuse : GateReason → Option Mark → GateResult

-- `Date.parse(a) <= Date.parse(b)`: false if either text is no date.
abbrev pub date_le : Option ℕ → Option ℕ → Bool
date_le (some a) (some b) = leb a b
date_le _ _ = false

abbrev pub bindings_match : ProposalDecisionSnapshot → ApprovalDecisionCommand → Bool
bindings_match s c =
    s.arguments_hash == c.expected_arguments_hash
    && s.observed_descriptor_hash == c.expected_descriptor_hash
    && s.session_generation == c.expected_session_generation
    && s.live_session_generation == c.expected_session_generation
    && s.live_session_generation == s.session_generation
    && s.live_approval_policy_hash == s.approval_policy_hash

-- `parse_date` is `Date.parse`, with `none` for `NaN`.
module _ (parse_date : String → Option ℕ) where
  unfoldable pub gate_snapshot :
      ProposalDecisionSnapshot → ApprovalDecisionCommand → String → GateResult
  gate_snapshot s c now =
      if s.state == "allowed" || s.state == "denied"
      then refuse decision_already_recorded none
      else if s.state == "expired"
      then refuse expired_proposal none
      else if s.state == "stale"
      then refuse stale_proposal none
      else if not (s.state == "proposed")
      then refuse forbidden_state none
      else if date_le (parse_date s.expires_at) (parse_date now)
      then refuse expired_proposal (some mark_expired)
      else if not (bindings_match s c)
      then refuse stale_proposal (some mark_stale)
      else pass

  unfoldable pub evaluate_approval_decision_gate :
      Option ProposalDecisionSnapshot → ApprovalDecisionCommand → String → GateResult
  unfolding gate_snapshot
  evaluate_approval_decision_gate none c now = refuse not_found none
  evaluate_approval_decision_gate (some s) c now = gate_snapshot s c now
