-- ===== src/Orchestration/Rotation/Examples.antt =====
-- A rotation that adds a grant and takes nothing away.
use forge_room.Base.{Bool, true, false, String, [], ◌∷◌, ◌≡◌, none, includes, any, string_eq, refl}
use forge_room.Orchestration.Capability.{
  ConnectorCapabilitySlice, CapabilityIntersectionInput, intersect_effective_tools,
  is_capability_restriction, effective_slice, intersect_sets,
}
use forge_room.Orchestration.Capability.Laws.Tools.{slice_grants}
use forge_room.Orchestration.Rotation.{grant_add, plan_session_rotation}
use forge_room.Orchestration.Rotation.Laws.{standing_actions_keep_tools}

abbrev mail : ConnectorCapabilitySlice
mail = record {
  connector_name = "mail";
  connector_allowed_tools = "read" ∷ "send" ∷ [];
  account_active = true;
  agent_spec_enabled_tools = "read" ∷ "send" ∷ [];
  approval_required_tools = [];
}

abbrev wider : CapabilityIntersectionInput
wider = record {
  workspace_policy_tools = "send" ∷ "read" ∷ [];
  channel_grant_tools = "send" ∷ "read" ∷ [];
  coworker_grant_tools = "read" ∷ "send" ∷ [];
  connectors = mail ∷ [];
}

abbrev unordered : String → String → Bool
unordered a b = false

abbrev read : String
read = "read"

standing_actions_keep_tools_example :
    ((plan_session_rotation grant_add
        (read ∷ [])
        (intersect_effective_tools unordered wider).tools
        true
        none).request_active_turn_cancellation
      ≡ false)
    × (includes wider.workspace_policy_tools read ≡ true)
    × (includes wider.channel_grant_tools read ≡ true)
    × (includes wider.coworker_grant_tools read ≡ true)
    × (any (slice_grants unordered read) wider.connectors ≡ true)
unfolding plan_session_rotation intersect_effective_tools is_capability_restriction effective_slice
    intersect_sets
standing_actions_keep_tools_example =
    standing_actions_keep_tools unordered wider grant_add (read ∷ []) true none read refl refl
