-- ===== src/Orchestration/Rotation/Laws.antt =====
-- When a rotation restricts a session.
use forge_room.Base.{
  String, Bool, true, false, List, [], ◌∷◌, Option, ◌≡◌, arith, includes, any, string_eq, eq_iff,
}
use forge_room.Orchestration.Capability.{
  CapabilityIntersectionInput, intersect_effective_tools, is_capability_restriction,
}
use forge_room.Orchestration.Capability.Laws.Tools.{tool_effective_iff, slice_grants}
use forge_room.Orchestration.Rotation.{SessionRotationReason, plan_session_rotation}

kept_tool :
    (previous next : List String) (tool : String)
    → is_capability_restriction previous next ≡ false
    → includes previous tool ≡ true
    → includes next tool ≡ true
unfolding is_capability_restriction
kept_tool [] next tool h m = absurd (cc)
kept_tool (t ∷ previous) next tool h m = ground (arith, kept_tool previous next tool, eq_iff t tool)

-- If the plan of a rotation to the effective tools leaves unresolved actions standing, it asks for
-- no cancellation of the active turn, and each tool that the session had before is still
-- granted by the workspace policy, the channel, the coworker and some active connector.
pub standing_actions_keep_tools :
    (before : String → String → Bool) (input : CapabilityIntersectionInput)
    (reason : SessionRotationReason) (previous : List String) (busy : Bool) (known : Option Bool)
    (tool : String)
    → (plan_session_rotation reason previous
        (intersect_effective_tools before input).tools
        busy
        known).stale_unresolved_actions
      ≡ false
    → includes previous tool ≡ true
    → ((plan_session_rotation reason previous
          (intersect_effective_tools before input).tools
          busy
          known).request_active_turn_cancellation
        ≡ false)
      × (includes input.workspace_policy_tools tool ≡ true)
      × (includes input.channel_grant_tools tool ≡ true)
      × (includes input.coworker_grant_tools tool ≡ true)
      × (any (slice_grants before tool) input.connectors ≡ true)
unfolding plan_session_rotation
standing_actions_keep_tools before input reason previous busy known tool h m =
    let next = (intersect_effective_tools before input).tools in
    ground (arith, kept_tool previous next tool, tool_effective_iff before input tool)
