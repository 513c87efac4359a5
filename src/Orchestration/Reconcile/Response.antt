-- ===== src/Orchestration/Reconcile/Response.antt =====
-- packages/orchestration/src/pause-resume.ts, decideCreateOrReconcileResponseTurn.
use forge_room.Base.{
  String, Bool, Option, none, some, if◌then◌else◌, ◌==◌, string_eq, List, [], ◌∷◌, filter, ◌&&◌,
}
use forge_room.Orchestration.Reconcile.{
  TurnInputItem, TrueForgeTurn, opt_eq, expected_previous, previous_input, Decision, bind_existing,
  create_new, fail_closed,
}

-- `history.find((turn) => turn.id === id)`
unfoldable pub find_turn : String → List TrueForgeTurn → Option TrueForgeTurn
find_turn id [] = none
find_turn id (turn ∷ turns) =
    let rest = find_turn id turns in if turn.id == id then some turn else rest

module _ (hash_intent : List TurnInputItem → String → String) where
  unfoldable pub matches_response : (input_hash previous : String) → TrueForgeTurn → Bool
  matches_response input_hash previous turn =
      opt_eq turn.previous_turn_id (expected_previous previous)
      && hash_intent turn.input (previous_input turn.previous_turn_id) == input_hash

  abbrev pub decide_on_response_matches : List TrueForgeTurn → Decision
  decide_on_response_matches [] = create_new
  decide_on_response_matches (turn ∷ []) = bind_existing turn
  decide_on_response_matches (_ ∷ _ ∷ _) = fail_closed

  -- The lookup of the recorded turn; an empty id is falsy.
  abbrev pub recorded : Option String → List TrueForgeTurn → Option TrueForgeTurn
  recorded none history = none
  recorded (some id) history = if id == "" then none else find_turn id history

  unfoldable pub decide_create_or_reconcile_response_turn :
      (local_id : Option String) → List TrueForgeTurn → (input_hash previous : String) → Decision
  unfolding find_turn
  decide_create_or_reconcile_response_turn local_id history input_hash previous =
      elim (recorded local_id history) [
        | some turn ↦ bind_existing turn
        | none ↦ decide_on_response_matches (filter (matches_response input_hash previous) history)
      ]
