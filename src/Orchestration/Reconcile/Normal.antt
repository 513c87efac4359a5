-- ===== src/Orchestration/Reconcile/Normal.antt =====
-- packages/orchestration/src/create-or-reconcile-turn.ts and the decision of turn-creation.ts.
use forge_room.Base.{
  String, Bool, true, false, not, Option, none, some, if◌then◌else◌, ◌==◌, string_eq, List, [], ◌∷◌,
  filter, ◌&&◌, ◌||◌,
}
use forge_room.Orchestration.TurnQueue.{is_falsy, text_or_empty}
use forge_room.Orchestration.Reconcile.{
  TurnInputItem, TrueForgeTurn, opt_eq, expected_previous, previous_input,
  extract_application_run_token_from_input, Page, read_history, Decision, bind_existing, create_new,
  fail_closed, Effect, created, bound, marked_uncertain, Outcome, bound_turn, ambiguous_history,
  create_failed, rejected, BindAnswer, accepted, refused, throws,
}

pub data LockState : Type 0 where
  creating uncertain : LockState

abbrev pub is_uncertain : LockState → Bool
is_uncertain creating = false
is_uncertain uncertain = true

-- What the surroundings answer: the lock, the pages of the history, the call of `bindTurn`, and the
-- id of the created turn, `none` if the call throws.
pub record Surroundings : Type 0 where
  pub lock_for_create : Option LockState
  pub pages : List Page
  pub bind_turn : String → BindAnswer
  pub create_turn : Option String

module _ (match_token : String → Option String)
    (hash_intent : List TurnInputItem → String → String) where
  -- The guards of the filter of `decideCreateOrReconcile` and of `matchTurnFromHistory`.
  unfoldable pub matches_intent : (run_token input_hash previous : String) → TrueForgeTurn → Bool
  matches_intent run_token input_hash previous turn =
      opt_eq turn.previous_turn_id (expected_previous previous)
      && opt_eq (extract_application_run_token_from_input match_token turn.input) (some run_token)
      && hash_intent turn.input (previous_input turn.previous_turn_id) == input_hash

  unfoldable pub match_turn_from_history :
      (run_token input_hash previous : String) → List TrueForgeTurn → Option TrueForgeTurn
  match_turn_from_history run_token input_hash previous [] = none
  match_turn_from_history run_token input_hash previous (turn ∷ turns) =
      let rest = match_turn_from_history run_token input_hash previous turns in
      if matches_intent run_token input_hash previous turn then some turn else rest

  abbrev pub bind_or_fail : Option TrueForgeTurn → Decision
  bind_or_fail none = fail_closed
  bind_or_fail (some turn) = bind_existing turn

  -- The branches on the number of matches.
  unfoldable pub decide_on_matches :
      (local_id : Option String) (run_token input_hash previous : String)
      → List TrueForgeTurn
      → Decision
  decide_on_matches local_id run_token input_hash previous [] =
      if not (is_falsy local_id) then fail_closed else create_new
  decide_on_matches local_id run_token input_hash previous (turn ∷ []) =
      if not (is_falsy local_id) && not (turn.id == text_or_empty local_id)
      then fail_closed
      else bind_or_fail (match_turn_from_history run_token input_hash previous (turn ∷ []))
  decide_on_matches local_id run_token input_hash previous (_ ∷ _ ∷ _) = fail_closed

  unfoldable pub decide_create_or_reconcile :
      (local_id : Option String)
      → List TrueForgeTurn
      → (run_token input_hash previous : String) → Decision
  decide_create_or_reconcile local_id history run_token input_hash previous =
      decide_on_matches local_id run_token input_hash previous
        (filter (matches_intent run_token input_hash previous) history)

  -- From the decision on. The last branch is reached only by a first create. The bind of a turn
  -- that the history shows stands outside the `try`, so that its exception is the handler's.
  unfoldable pub act_on_decision :
      Surroundings → LockState → (force_reconcile : Bool) → Decision → Outcome × List Effect
  act_on_decision s state force fail_closed = (ambiguous_history, marked_uncertain ∷ [])
  act_on_decision s state force (bind_existing turn) = elim (s.bind_turn turn.id) [
    | accepted ↦ (bound_turn turn.id false, bound turn.id ∷ [])
    | refused ↦ (create_failed, marked_uncertain ∷ [])
    | throws ↦ (rejected, [])
  ]
  act_on_decision s state force create_new =
      if force || is_uncertain state
      then (ambiguous_history, marked_uncertain ∷ [])
      else elim s.create_turn [
        | none ↦ (create_failed, created ∷ marked_uncertain ∷ [])
        | some id ↦ elim (s.bind_turn id) [
          | accepted ↦ (bound_turn id true, created ∷ bound id ∷ [])
          | refused ↦ (create_failed, created ∷ marked_uncertain ∷ [])
          | throws ↦ (create_failed, created ∷ marked_uncertain ∷ [])
        ]
      ]

  unfoldable pub create_or_reconcile_turn :
      Surroundings
      → (run_token input_hash previous : String) → (local_id : Option String)
      → (force_reconcile : Bool) → Outcome × List Effect
  create_or_reconcile_turn s run_token input_hash previous local_id force = elim s.lock_for_create [
    | none ↦ (create_failed, [])
    | some state ↦
        if force || not (is_falsy local_id)
        then (elim (read_history [] s.pages) [
          | none ↦ (create_failed, marked_uncertain ∷ [])
          | some history ↦
              act_on_decision s state force
                (decide_create_or_reconcile local_id history run_token input_hash previous)
        ])
        else act_on_decision s state force
            (decide_create_or_reconcile local_id [] run_token input_hash previous)
  ]
