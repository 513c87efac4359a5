-- ===== src/Domain/Approvals/Examples.antt =====
-- A proposal, its card and decisions on it.
use Prim.Native.String.{String}
use forge_room.Base.{ℕ, Option, none, some, ◌≡◌, ◌↔◌}
use forge_room.Base.Json.{null}
use forge_room.Domain.Approvals.{
  ProposalDecisionSnapshot, ApprovalDecisionCommand, low, pass, evaluate_approval_decision_gate,
  build_approval_card,
}
use forge_room.Domain.Approvals.Laws.{
  IsOpen, IsBound, quote_card, gate_passes_iff, card_decision_iff,
}

abbrev proposal : ProposalDecisionSnapshot
proposal = record {
  id = "p";
  required_action_id = "a";
  pause_group_id = "g";
  channel_id = "c";
  run_id = "r";
  run_step_id = "s";
  agent_turn_id = "t";
  coworker_id = "w";
  coworker_handle = "ada";
  coworker_name = "Ada";
  logical_thread_id = "l";
  tool_call_id = "k";
  tool_name = "send";
  observed_descriptor_hash = "d1";
  approval_policy_hash = "y1";
  connector_binding_id = "b";
  account_id = "x";
  acting_identity = record {
    service = "mail";
    account_display = "team";
    principal_type = "user";
    principal_display = "Ada";
    principal_id_hash = "h";
  };
  redacted_arguments = null;
  arguments_hash = "h1";
  redacted_target = null;
  target_hash = "h2";
  artifact_revision_hash = none;
  expected_effect = "one mail";
  risk_class = low;
  payload_hash = "h3";
  session_generation = 2;
  session_generation_id = "s2";
  live_approval_policy_hash = "y1";
  live_session_generation = 2;
  state = "proposed";
  expires_at = "noon";
  provider_idempotency_key = none;
}

abbrev decision : ApprovalDecisionCommand
decision = quote_card (build_approval_card proposal)

-- A calendar on which every text is the same date.
abbrev calendar : String → Option ℕ
calendar s = some 5

gate_passes_iff_example :
    (evaluate_approval_decision_gate calendar (some proposal) decision "noon" ≡ pass) ↔ (
      (s : ProposalDecisionSnapshot) × (some proposal ≡ some s)
      × IsOpen calendar s "noon"
      × IsBound s decision)
gate_passes_iff_example = gate_passes_iff calendar (some proposal) decision "noon"

card_decision_iff_example :
    (evaluate_approval_decision_gate calendar
        (some proposal)
        (quote_card (build_approval_card proposal))
        "noon"
      ≡ pass)
    ↔ (IsOpen calendar proposal "noon"
        × (proposal.live_session_generation ≡ proposal.session_generation)
        × (proposal.live_approval_policy_hash ≡ proposal.approval_policy_hash))
card_decision_iff_example = card_decision_iff calendar proposal "noon"
