-- ===== src/Orchestration/Capability/Examples.antt =====
-- One connector, and a skill that asks for one of its tools.
use forge_room.Base.{
  Bool, true, false, String, [], ◌∷◌, ◌≡◌, ◌↔◌, ◌&&◌, some, includes, any, string_eq,
}
use forge_room.Orchestration.Capability.{
  ConnectorCapabilitySlice, CapabilityIntersectionInput, SkillRequirementManifest,
  intersect_effective_tools, intersect_pinned_skills, manifest_named,
}
use forge_room.Orchestration.Capability.Laws.Tools.{slice_grants, tool_effective_iff}
use forge_room.Orchestration.Capability.Laws.Skills.{requirements_met, pinned_skill_iff}

abbrev mail : ConnectorCapabilitySlice
mail = record {
  connector_name = "mail";
  connector_allowed_tools = "read" ∷ "send" ∷ [];
  account_active = true;
  agent_spec_enabled_tools = "send" ∷ [];
  approval_required_tools = "send" ∷ [];
}

abbrev authority : CapabilityIntersectionInput
authority = record {
  workspace_policy_tools = "send" ∷ "read" ∷ [];
  channel_grant_tools = "send" ∷ [];
  coworker_grant_tools = "send" ∷ [];
  connectors = mail ∷ [];
}

abbrev unordered : String → String → Bool
unordered a b = false

abbrev send : String
send = "send"

tool_effective_iff_example : includes (intersect_effective_tools unordered authority).tools send ≡ (
    includes authority.workspace_policy_tools send
    && includes authority.channel_grant_tools send
    && includes authority.coworker_grant_tools send
    && any (slice_grants unordered send) authority.connectors)
tool_effective_iff_example = tool_effective_iff unordered authority send

abbrev letters : SkillRequirementManifest
letters = record {
  skill_name = "letters";
  required_tools = send ∷ [];
  required_component_tools = [];
  required_data_grants = [];
}

abbrev skill : String
skill = "letters"

pinned_skill_iff_example :
    (includes
        (intersect_pinned_skills unordered (skill ∷ []) (letters ∷ []) (send ∷ []) [] [])
        skill
      ≡ true)
    ↔ ((includes (skill ∷ []) skill ≡ true)
        × ((manifest : SkillRequirementManifest) × (manifest_named skill (letters ∷ [])
              ≡ some manifest)
            × (requirements_met manifest (send ∷ []) [] [] ≡ true)))
pinned_skill_iff_example =
    pinned_skill_iff unordered (skill ∷ []) (letters ∷ []) (send ∷ []) [] [] skill
