-- ===== src/Orchestration/Reconcile/Laws/Input.antt =====
-- The input of a response-only turn.
use forge_room.Base.{String, Bool, ◌≡◌, refl, List, [], ◌∷◌, map, ok, err, ◌∙◌}
use forge_room.Orchestration.Reconcile.{TurnInputItem}
use forge_room.Orchestration.Reconcile.ResponseInput.{
  PauseResumeResponseItem, approval, question, allow, deny, response_item,
  assert_response_only_no_normal_message, ordered_responses, build_response_only_turn_input,
  requires_response,
}

response_item_accepted :
    (item : PauseResumeResponseItem) (items : List TurnInputItem)
    → assert_response_only_no_normal_message (response_item item ∷ items)
      ≡ assert_response_only_no_normal_message items
unfolding assert_response_only_no_normal_message response_item
response_item_accepted item items =
    elim item.kind
      as (λ k.
        assert_response_only_no_normal_message (response_item (record item { kind = k }) ∷ items)
        ≡ assert_response_only_no_normal_message items) [
          | approval allow ↦ refl
          | approval (deny reason) ↦ refl
          | question content ↦ refl
        ]

responses_accepted :
    (rs : List PauseResumeResponseItem)
    → assert_response_only_no_normal_message (map response_item rs) ≡ ok tt
unfolding assert_response_only_no_normal_message
responses_accepted [] = refl
responses_accepted (r ∷ rs) =
    response_item_accepted r (map response_item rs) ∙ responses_accepted rs

-- The build of a response-only input fails on no responses alone, and otherwise gives one item for
-- each response, in the order of the required actions.
pub response_input_built :
    (before : String → String → Bool) (r : PauseResumeResponseItem)
    (rs : List PauseResumeResponseItem)
    → (build_response_only_turn_input before [] ≡ err requires_response)
      × (build_response_only_turn_input before (r ∷ rs)
          ≡ ok (map response_item (ordered_responses before (r ∷ rs))))
unfolding build_response_only_turn_input
response_input_built before r rs =
    (refl, rw (responses_accepted (ordered_responses before (r ∷ rs))) refl)
