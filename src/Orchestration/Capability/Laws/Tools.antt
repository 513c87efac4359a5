-- ===== src/Orchestration/Capability/Laws/Tools.antt =====
-- Effective tools, for packages/orchestration/src/capability-intersection.ts.
use forge_room.Base.{
  String, Bool, ◌≡◌, refl, arith, List, [], ◌∷◌, includes, filter, any, all, map, flat_map, ◌&&◌,
  string_eq, eq_iff, ◌∙◌, unique,
}
use forge_room.Base.ListLaws.{includes-sort, includes-unique, includes-append}
use forge_room.Orchestration.Capability.{
  ConnectorCapabilitySlice, CapabilityIntersectionInput, sorted_unique, narrow, intersect_sets,
  effective_slice, intersect_effective_tools,
}

pub includes-filter_eq :
    (p : String → Bool) (xs : List String) (a : String)
    → includes (filter p xs) a ≡ (includes xs a && p a)
includes-filter_eq p [] a = refl
includes-filter_eq p (x ∷ xs) a = ground (arith, includes-filter_eq p xs a, eq_iff x a)

module _ (before : String → String → Bool) where
  pub includes-sorted_unique :
      (xs : List String) (a : String) → includes (sorted_unique before xs) a ≡ includes xs a
  includes-sorted_unique xs a = includes-sort before (unique xs) a ∙ includes-unique xs a

  includes-narrow :
      (current : List String) (rest : List (List String)) (a : String)
      → includes (narrow before current rest) a
        ≡ (includes current a && all (λ s. includes s a) rest)
  unfolding narrow
  includes-narrow current [] a = ground arith
  includes-narrow current (s ∷ rest) a = ground (
    arith,
    includes-narrow (filter (includes s) current) rest a,
    includes-filter_eq (includes s) current a,
  )

  includes-intersect :
      (first : List String) (rest : List (List String)) (a : String)
      → includes (intersect_sets before (first ∷ rest)) a
        ≡ (includes first a && all (λ s. includes s a) rest)
  unfolding intersect_sets
  includes-intersect first rest a = ground (
    arith,
    includes-sorted_unique (narrow before (unique first) rest) a,
    includes-narrow (unique first) rest a,
    includes-unique first a,
  )

  -- A connector's slice enables a tool of the base, if its account is active, its binding allows
  -- the tool and the agent's specification enables it.
  abbrev pub slice_grants : String → ConnectorCapabilitySlice → Bool
  slice_grants tool s =
      s.account_active
      && includes s.connector_allowed_tools tool
      && includes s.agent_spec_enabled_tools tool

  slice_enables :
      (base : List String) (s : ConnectorCapabilitySlice) (tool : String)
      → includes (effective_slice before base s).enabled_tools tool
        ≡ (includes base tool && slice_grants tool s)
  unfolding effective_slice
  slice_enables base s tool = ground (
    arith,
    includes-intersect base (s.connector_allowed_tools ∷ s.agent_spec_enabled_tools ∷ []) tool,
  )

  slices_enable :
      (base : List String) (slices : List ConnectorCapabilitySlice) (tool : String)
      → includes
          (flat_map (λ row. row.enabled_tools) (map (effective_slice before base) slices))
          tool
        ≡ (includes base tool && any (slice_grants tool) slices)
  slices_enable base [] tool = ground arith
  slices_enable base (s ∷ slices) tool =
      let rest = map (effective_slice before base) slices in
      ground (
        arith,
        slice_enables base s tool,
        slices_enable base slices tool,
        includes-append (effective_slice before base s).enabled_tools
            (flat_map (λ row. row.enabled_tools) rest) tool,
      )

  -- A tool is effective exactly when the workspace policy, the channel and the coworker all grant
  -- it, and some connector with an active account both allows it and has it enabled in the agent's
  -- specification.
  pub tool_effective_iff :
      (input : CapabilityIntersectionInput) (tool : String)
      → includes (intersect_effective_tools before input).tools tool ≡ (
          includes input.workspace_policy_tools tool
          && includes input.channel_grant_tools tool
          && includes input.coworker_grant_tools tool
          && any (slice_grants tool) input.connectors)
  unfolding intersect_effective_tools
  tool_effective_iff input tool =
      let base = intersect_sets before (
        input.workspace_policy_tools ∷ input.channel_grant_tools ∷ input.coworker_grant_tools
        ∷ []) in
      let rows = map (effective_slice before base) input.connectors in
      let all_tools = flat_map (λ row. row.enabled_tools) rows in
      ground (
        arith,
        includes-filter_eq (includes base) (sorted_unique before all_tools) tool,
        includes-sorted_unique all_tools tool,
        slices_enable base input.connectors tool,
        includes-intersect input.workspace_policy_tools
            (input.channel_grant_tools ∷ input.coworker_grant_tools ∷ []) tool,
      )

  -- In a connector's slice, a tool asks for approval exactly when it is enabled there and the
  -- specification asks for its approval: no enabled tool loses its approval, and none is listed
  -- that is not enabled.
  pub approval_kept :
      (base : List String) (s : ConnectorCapabilitySlice) (tool : String)
      → includes (effective_slice before base s).approval_required_tools tool ≡ (
          includes (effective_slice before base s).enabled_tools tool
          && includes s.approval_required_tools tool)
  unfolding effective_slice
  approval_kept base s tool =
      let enabled =
        intersect_sets before
          (base ∷ s.connector_allowed_tools ∷ s.agent_spec_enabled_tools ∷ []) in
      ground (
        arith,
        includes-sorted_unique (filter (includes enabled) s.approval_required_tools) tool,
        includes-filter_eq (includes enabled) s.approval_required_tools tool,
      )
