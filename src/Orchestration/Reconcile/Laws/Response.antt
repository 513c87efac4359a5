-- ===== src/Orchestration/Reconcile/Laws/Response.antt =====
-- When the response handler decides to create a turn.

use forge_room.Base.{
  String, Option, none, some, string_eq, List, [], ◌∷◌, filter, ◌≡◌, refl, arith, ◌↔◌,
}
use forge_room.Orchestration.Reconcile.{TurnInputItem, TrueForgeTurn, create_new}
use forge_room.Orchestration.Reconcile.Response.{
  decide_create_or_reconcile_response_turn, matches_response, recorded,
}

-- Told of no match and of no recorded turn that is still in the history, the response handler
-- decides to create a turn, also where a turn is on record that the history does not show; and it
-- decides so in no other case.
pub response_creates_iff :
    (hash_intent : List TurnInputItem → String → String) (local_id : Option String)
    (history : List TrueForgeTurn) (input_hash previous : String)
    → (decide_create_or_reconcile_response_turn hash_intent local_id history input_hash previous
        ≡ create_new)
      ↔ ((recorded hash_intent local_id history ≡ none)
          × (filter (matches_response hash_intent input_hash previous) history ≡ []))
unfolding decide_create_or_reconcile_response_turn
response_creates_iff hash_intent local_id history input_hash previous =
    response_case (recorded hash_intent local_id history) refl
      (filter (matches_response hash_intent input_hash previous) history) refl
  where
    response_case :
        (r : Option TrueForgeTurn)
        → recorded hash_intent local_id history ≡ r
        → (matches : List TrueForgeTurn)
        → filter (matches_response hash_intent input_hash previous) history ≡ matches
        → (decide_create_or_reconcile_response_turn hash_intent local_id history input_hash previous
            ≡ create_new)
          ↔ ((recorded hash_intent local_id history ≡ none)
              × (filter (matches_response hash_intent input_hash previous) history ≡ []))
    response_case (some t) e matches h = ground arith
    response_case none e [] h = ground arith
    response_case none e (t ∷ []) h = ground arith
    response_case none e (t ∷ u ∷ ts) h = ground arith
