-- ===== src/AgUi/ToolCalls/Laws.antt =====
-- Laws of packages/integrations/ag-ui/src/tool-call-reducer.ts.
use forge_room.Base.{
  String, not, some, List, [], ◌∷◌, ◌==◌, string_eq, ◌≡◌, refl, sym, ◌∙◌, arith, eq_iff, none-some,
  guard_some, some-injective, Bool-cases, Option-cases, inl, inr,
}
use mathlib.Core.Path.{subst}
use forge_room.AgUi.Lanes.{Envelope, ActivityLaneOwner, owner_from_envelope, same_owner}
use forge_room.AgUi.Activities.Laws.Identity.{same_owner_eq}
use forge_room.AgUi.ToolCalls.{
  complete, ToolCallEntry, ToolCalls, ToolCallEvent, tool_call_start, tool_call_args, tool_call_end,
  tool_call_result, other_event, id_of, started, continued, resulted, entry_after,
  reduce_tool_call_presentation_state,
}

-- The state after a sequence of events.
unfoldable pub tool_calls_after : ToolCalls → List (Envelope × ToolCallEvent) → ToolCalls
tool_calls_after state [] = state
tool_calls_after state ((e, event) ∷ events) =
    tool_calls_after (reduce_tool_call_presentation_state state e event) events

-- The entry `next` is of the lane of `prior`, and complete if that was.
abbrev pub Carries : (prior next : ToolCallEntry) → Type 0
Carries prior next = (prior.owner ≡ next.owner) × (prior.status ≡ complete → next.status ≡ complete)

entry-Carries :
    (prior : ToolCallEntry) (owner : ActivityLaneOwner) (event : ToolCallEvent)
    (next : ToolCallEntry)
    → entry_after (some prior) owner event ≡ some next
    → Carries prior next
unfolding entry_after started continued resulted
entry-Carries prior owner other_event next h = absurd (none-some h)
entry-Carries prior owner (tool_call_start id name parent) next h =
    let (same, e) = guard_some (not (same_owner prior.owner owner)) _ h in
    subst (Carries prior) (some-injective e)
      (same_owner_eq prior.owner owner (ground arith), λ done. done)
entry-Carries prior owner (tool_call_args id) next h =
    let (_, e) = guard_some (not (same_owner prior.owner owner)) _ h in
    subst (Carries prior) (some-injective e) (refl, λ done. done)
entry-Carries prior owner (tool_call_end id) next h =
    let (_, e) = guard_some (not (same_owner prior.owner owner)) _ h in
    subst (Carries prior) (some-injective e) (refl, λ done. refl)
entry-Carries prior owner (tool_call_result id) next h =
    let (_, e) = guard_some (not (same_owner prior.owner owner)) _ h in
    subst (Carries prior) (some-injective e) (refl, λ done. refl)

step-Carries :
    (state : ToolCalls) (e : Envelope) (event : ToolCallEvent) (id : String) (prior : ToolCallEntry)
    → state id ≡ some prior
    → (next : ToolCallEntry) × (reduce_tool_call_presentation_state state e event id ≡ some next)
      × Carries prior next
unfolding reduce_tool_call_presentation_state
step-Carries state e event id prior h =
    elim (Option-cases (entry_after (state (id_of event)) (owner_from_envelope e) event)) [
      | inl nothing ↦
          (prior, rw (nothing, reduce_tool_call_presentation_state) h, (refl, λ done. done))
      | inr (entry, new) ↦ elim (Bool-cases (id_of event == id)) [
        | inr other ↦
            (prior, rw (new, other, reduce_tool_call_presentation_state) h, (refl, λ done. done))
        | inl here ↦
            let same : id_of event ≡ id = (eq_iff (id_of event) id).0 here in
            let found = subst (λ k. state k ≡ some prior) (sym same) h in
            (
              entry,
              rw (new, here, reduce_tool_call_presentation_state) refl,
              entry-Carries prior (owner_from_envelope e) event entry
                  (subst (λ o. entry_after o (owner_from_envelope e) event ≡ some entry) found new),
            )
      ]
    ]

-- A tool call that is shown stays shown, whatever events follow: it keeps its lane, and is complete
-- if it was.
pub tool_calls_carried :
    (state : ToolCalls) (events : List (Envelope × ToolCallEvent)) (id : String)
    (prior : ToolCallEntry)
    → state id ≡ some prior
    → (next : ToolCallEntry) × (tool_calls_after state events id ≡ some next) × Carries prior next
unfolding tool_calls_after
tool_calls_carried state [] id prior h = (prior, h, (refl, λ done. done))
tool_calls_carried state ((e, event) ∷ events) id prior h =
    let (middle, there, (owners, stays)) = step-Carries state e event id prior h in
    let (next, seen, (owners', stays')) =
      tool_calls_carried (reduce_tool_call_presentation_state state e event) events id middle
        there in
    (next, seen, (owners ∙ owners', λ done. stays' (stays done)))
