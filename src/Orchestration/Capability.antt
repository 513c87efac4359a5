-- ===== src/Orchestration/Capability.antt =====
-- packages/orchestration/src/capability-intersection.ts: what a coworker may effectively use.
-- `before` is the order of `localeCompare`.
pub mod Laws
mod Examples
use forge_room.Base.{
  ℕ, String, Bool, true, false, not, Option, none, some, if◌then◌else◌, ◌==◌, string_eq, List, [],
  ◌∷◌, includes, filter, any, all, unique, sort, flat_map, map, ◌&&◌, ◌||◌,
}

pub record ConnectorCapabilitySlice : Type 0 where
  pub connector_name : String
  pub connector_allowed_tools : List String
  pub account_active : Bool
  pub agent_spec_enabled_tools : List String
  pub approval_required_tools : List String

pub record CapabilityIntersectionInput : Type 0 where
  pub workspace_policy_tools : List String
  pub channel_grant_tools : List String
  pub coworker_grant_tools : List String
  pub connectors : List ConnectorCapabilitySlice

pub record EffectiveConnectorTools : Type 0 where
  pub connector_name : String
  pub enabled_tools : List String
  pub approval_required_tools : List String

pub record EffectiveToolCapability : Type 0 where
  pub tools : List String
  pub connectors : List EffectiveConnectorTools

pub data Exposure : Type 0 where
  agent_tool server_only : Exposure

pub record ControlledComponentCandidate : Type 0 where
  pub stable_name : String
  pub tool_name : String
  pub published : Bool
  pub active_grant : Bool
  pub exposure : Exposure
  pub expected_descriptor_hash : Option String
  pub actual_descriptor_hash : String

pub record EffectiveComponentTool : Type 0 where
  pub stable_name : String
  pub tool_name : String
  pub descriptor_hash : String

pub record SkillRequirementManifest : Type 0 where
  pub skill_name : String
  pub required_tools : List String
  pub required_component_tools : List String
  pub required_data_grants : List String

pub data SkillAttachDecision : Type 0 where
  attach : SkillAttachDecision
  missing_capability :
      (missing_tools missing_components missing_data_grants : List String) → SkillAttachDecision

abbrev pub is_agent_tool : Exposure → Bool
is_agent_tool agent_tool = true
is_agent_tool server_only = false

abbrev pub is_nil {ℓ} : {A : Type ℓ} → List A → Bool
is_nil [] = true
is_nil (_ ∷ _) = false

-- An expected hash is absent, or is the actual one.
abbrev pub hash_agrees : Option String → String → Bool
hash_agrees none actual = true
hash_agrees (some expected) actual = expected == actual

-- The guards of the loop over the candidates.
unfoldable pub is_offered : ControlledComponentCandidate → Bool
is_offered row =
    not (not row.published || not row.active_grant || not (is_agent_tool row.exposure))
    && hash_agrees row.expected_descriptor_hash row.actual_descriptor_hash

abbrev pub offer : ControlledComponentCandidate → EffectiveComponentTool
offer row = record {
  stable_name = row.stable_name;
  tool_name = row.tool_name;
  descriptor_hash = row.actual_descriptor_hash;
}

module _ (before : String → String → Bool) where
  abbrev pub sorted_unique : List String → List String
  sorted_unique values = sort before (unique values)

  -- The loop of `intersectSets` over the sets behind the first.
  unfoldable pub narrow : List String → List (List String) → List String
  narrow current [] = current
  narrow current (next ∷ rest) = narrow (filter (includes next) current) rest

  unfoldable pub intersect_sets : List (List String) → List String
  unfolding narrow
  intersect_sets [] = []
  intersect_sets (first ∷ rest) = sorted_unique (narrow (unique first) rest)

  unfoldable pub effective_slice : List String → ConnectorCapabilitySlice → EffectiveConnectorTools
  effective_slice base slice =
      let enabled =
        intersect_sets
          (base ∷ slice.connector_allowed_tools ∷ slice.agent_spec_enabled_tools ∷ []) in
      if not slice.account_active
      then record {
        connector_name = slice.connector_name;
        enabled_tools = [];
        approval_required_tools = [];
      }
      else record {
        connector_name = slice.connector_name;
        enabled_tools = enabled;
        approval_required_tools =
            sorted_unique (filter (includes enabled) slice.approval_required_tools);
      }

  unfoldable pub intersect_effective_tools : CapabilityIntersectionInput → EffectiveToolCapability
  intersect_effective_tools input =
      let base = intersect_sets (
        input.workspace_policy_tools ∷ input.channel_grant_tools ∷ input.coworker_grant_tools
        ∷ []) in
      let connectors = map (effective_slice base) input.connectors in
      let tools = sorted_unique (flat_map (λ row. row.enabled_tools) connectors) in
      record { tools = filter (includes base) tools; connectors = connectors }

  unfoldable pub intersect_effective_component_tools :
      List ControlledComponentCandidate → List EffectiveComponentTool
  intersect_effective_component_tools candidates =
      sort (λ a b. before a.tool_name b.tool_name) (map offer (filter is_offered candidates))

  pub data Recheck : Type 0 where
    callable stale_or_ungranted not_offered : Recheck

  unfoldable pub recheck_component_tool_call : ControlledComponentCandidate → Bool → Recheck
  unfolding intersect_effective_component_tools
  recheck_component_tool_call candidate offered_in_current_revision =
      if not offered_in_current_revision
      then not_offered
      else if is_nil (intersect_effective_component_tools (candidate ∷ []))
      then stale_or_ungranted
      else callable

abbrev pub missing_from : List String → List String → List String
missing_from have wanted = filter (λ key. not (includes have key)) wanted

unfoldable pub decide_skill_attach :
    SkillRequirementManifest
    → (effective_tools effective_component_tools data_grants : List String) → SkillAttachDecision
decide_skill_attach skill tools components grants =
    let missing_tools = missing_from tools skill.required_tools in
    let missing_components = missing_from components skill.required_component_tools in
    let missing_grants = missing_from grants skill.required_data_grants in
    if is_nil missing_tools && is_nil missing_components && is_nil missing_grants
    then attach
    else missing_capability missing_tools missing_components missing_grants

-- `byName.get(name)`: the last manifest of that name.
unfoldable pub manifest_named :
    String → List SkillRequirementManifest → Option SkillRequirementManifest
manifest_named name [] = none
manifest_named name (row ∷ rows) = elim (manifest_named name rows) [
  | some later ↦ some later
  | none ↦ if row.skill_name == name then some row else none
]

abbrev pub attaches : SkillAttachDecision → Bool
attaches attach = true
attaches (missing_capability _ _ _) = false

-- The test of the loop over the pinned names.
unfoldable pub keeps_skill :
    List SkillRequirementManifest → (tools components grants : List String) → String → Bool
keeps_skill manifests tools components grants name = elim (manifest_named name manifests) [
  | none ↦ false
  | some manifest ↦ attaches (decide_skill_attach manifest tools components grants)
]

unfoldable pub intersect_pinned_skills :
    (before : String → String → Bool)
    → (pinned : List String) → List SkillRequirementManifest
    → (tools components grants : List String) → List String
intersect_pinned_skills before pinned manifests tools components grants =
    sorted_unique before (filter (keeps_skill manifests tools components grants) pinned)

unfoldable pub is_capability_restriction : (previous next : List String) → Bool
is_capability_restriction previous next = any (λ tool. not (includes next tool)) previous
