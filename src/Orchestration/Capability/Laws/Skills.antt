-- ===== src/Orchestration/Capability/Laws/Skills.antt =====
-- Pinned skills, for packages/orchestration/src/capability-intersection.ts.
use forge_room.Base.{
  String, Bool, true, Option, none, some, ◌≡◌, ◌↔◌, refl, arith, List, [], ◌∷◌, includes, filter,
  all, ◌&&◌, string_eq, ◌∙◌,
}
use forge_room.Orchestration.Capability.{
  SkillRequirementManifest, decide_skill_attach, attaches, missing_from, is_nil, manifest_named,
  keeps_skill, intersect_pinned_skills,
}
use forge_room.Orchestration.Capability.Laws.Tools.{includes-filter_eq, includes-sorted_unique}

nothing_missing :
    (have wanted : List String)
    → is_nil (missing_from have wanted) ≡ all (λ key. includes have key) wanted
nothing_missing have [] = refl
nothing_missing have (key ∷ wanted) = ground (arith, nothing_missing have wanted)

-- What the manifest asks for is there already.
abbrev pub requirements_met :
    SkillRequirementManifest → (tools components grants : List String) → Bool
requirements_met skill tools components grants =
    all (λ key. includes tools key) skill.required_tools
    && all (λ key. includes components key) skill.required_component_tools
    && all (λ key. includes grants key) skill.required_data_grants

attaches-eq :
    (skill : SkillRequirementManifest) (tools components grants : List String)
    → attaches (decide_skill_attach skill tools components grants)
      ≡ requirements_met skill tools components grants
unfolding decide_skill_attach
attaches-eq skill tools components grants = ground (
  arith,
  nothing_missing tools skill.required_tools,
  nothing_missing components skill.required_component_tools,
  nothing_missing grants skill.required_data_grants,
)

keeps_iff :
    (manifests : List SkillRequirementManifest) (tools components grants : List String)
    (name : String)
    → (keeps_skill manifests tools components grants name ≡ true) ↔ (
        (manifest : SkillRequirementManifest) × (manifest_named name manifests ≡ some manifest)
        × (requirements_met manifest tools components grants ≡ true))
unfolding keeps_skill
keeps_iff manifests tools components grants name = found (manifest_named name manifests) refl
  where
    found :
        (o : Option SkillRequirementManifest)
        → manifest_named name manifests ≡ o
        → (keeps_skill manifests tools components grants name ≡ true) ↔ (
            (manifest : SkillRequirementManifest) × (manifest_named name manifests ≡ some manifest)
            × (requirements_met manifest tools components grants ≡ true))
    found none e = (λ h. absurd (ground (arith, e)), λ h. absurd (ground arith))
    found (some m) e = (
      λ h. (m, e, ground (arith, attaches-eq m tools components grants)),
      λ h.
          let (m', e', met) = h in
          ground
            (arith, attaches-eq m tools components grants, attaches-eq m' tools components grants),
    )

-- A skill stays pinned exactly when it was pinned, and the last manifest of its name asks only for
-- tools, components and data grants that are effective already.
pub pinned_skill_iff :
    (before : String → String → Bool) (pinned : List String)
    (manifests : List SkillRequirementManifest) (tools components grants : List String)
    (name : String)
    → (includes (intersect_pinned_skills before pinned manifests tools components grants) name
        ≡ true)
      ↔ ((includes pinned name ≡ true)
          × ((manifest : SkillRequirementManifest) × (manifest_named name manifests ≡ some manifest)
              × (requirements_met manifest tools components grants ≡ true)))
unfolding intersect_pinned_skills
pinned_skill_iff before pinned manifests tools components grants name =
    let keeps = keeps_skill manifests tools components grants in
    let member =
      includes-sorted_unique before (filter keeps pinned) name
      ∙ includes-filter_eq keeps pinned name in
    let iff = keeps_iff manifests tools components grants name in
    (λ h. (ground arith, iff.0 (ground arith)), λ h. let kept = iff.1 h.1 in ground arith)
