-- ===== src/Orchestration/Reconcile/Continuation.antt =====
-- packages/orchestration/src/component-continuation.ts and
-- create-or-reconcile-component-continuation-turn.ts: the turn that delivers the result of a
-- component. `canonicalize` is `canonicalizeJson`; digests other than that of the turn's intent are
-- left out.
use forge_room.Base.{
  String, Bool, true, false, not, Option, none, some, if◌then◌else◌, ◌==◌, string_eq, List, [], ◌∷◌,
  filter, ◌&&◌, ◌||◌,
}
use forge_room.Base.Json.{Json}
use forge_room.Orchestration.TurnQueue.{is_falsy, text_or_empty}
use forge_room.Orchestration.Reconcile.{
  TurnInputItem, tool_response, TrueForgeTurn, Decision, bind_existing, create_new, fail_closed,
  Effect, created, bound, marked_uncertain, continued, Outcome, bound_turn, ambiguous_history,
  create_failed, rejected, Page, BindAnswer, accepted, refused, throws,
}
use forge_room.Orchestration.Reconcile.Normal.{LockState, is_uncertain}
use forge_room.Orchestration.Reconcile.Response.{matches_response}
use forge_room.Orchestration.Reconcile.ResponseHandler.{seen_history}

pub record ComponentContinuationResponse : Type 0 where
  pub interrupt_id : String
  pub tool_call_id : String
  pub thread_id : String
  pub result_redacted : Json

-- `on_continued` is absent, or tells whether the call succeeds.
pub record ContinuationSurroundings : Type 0 where
  pub lock_for_create : Option LockState
  pub pages : List Page
  pub bind_turn : String → BindAnswer
  pub create_turn : Option String
  pub on_continued : Option Bool

-- The one item; `content` puts the run token before the text of the result.
abbrev pub continuation_input :
    (content : String → Json → String) (run_token : String)
    → ComponentContinuationResponse
    → List TurnInputItem
continuation_input content run_token r =
    tool_response r.thread_id r.tool_call_id (content run_token r.result_redacted) ∷ []

abbrev pub decide_on_continuation_matches :
    (local_id : Option String) → List TrueForgeTurn → Decision
decide_on_continuation_matches local_id [] =
    if not (is_falsy local_id) then fail_closed else create_new
decide_on_continuation_matches local_id (turn ∷ []) =
    if not (is_falsy local_id) && not (turn.id == text_or_empty local_id)
    then fail_closed
    else bind_existing turn
decide_on_continuation_matches local_id (_ ∷ _ ∷ _) = fail_closed

-- The call of `onContinued` after a bind: `false` if it throws.
abbrev pub continues : Option Bool → Bool
continues none = true
continues (some succeeds) = succeeds

abbrev pub continued_effects : Option Bool → List Effect
continued_effects none = []
continued_effects (some true) = continued ∷ []
continued_effects (some false) = []

module _ (hash_intent : List TurnInputItem → String → String) where
  unfoldable pub decide_create_or_reconcile_component_continuation_turn :
      (local_id : Option String) → List TrueForgeTurn → (input_hash previous : String) → Decision
  decide_create_or_reconcile_component_continuation_turn local_id history input_hash previous =
      decide_on_continuation_matches local_id
        (filter (matches_response hash_intent input_hash previous) history)

  -- The turn is bound, and then its interrupt is continued; what happens when either throws is the
  -- branch's own.
  unfoldable pub act_on_continuation_decision :
      ContinuationSurroundings
      → LockState
      → (force_reconcile : Bool) → Decision
      → Outcome × List Effect
  act_on_continuation_decision s state force fail_closed =
      (ambiguous_history, marked_uncertain ∷ [])
  act_on_continuation_decision s state force (bind_existing turn) = elim (s.bind_turn turn.id) [
    | refused ↦ (create_failed, marked_uncertain ∷ [])
    | throws ↦ (rejected, [])
    | accepted ↦
        if continues s.on_continued
        then (bound_turn turn.id false, bound turn.id ∷ continued_effects s.on_continued)
        else (rejected, bound turn.id ∷ [])
  ]
  act_on_continuation_decision s state force create_new =
      if force || is_uncertain state
      then (ambiguous_history, marked_uncertain ∷ [])
      else elim s.create_turn [
        | none ↦ (create_failed, created ∷ marked_uncertain ∷ [])
        | some id ↦ elim (s.bind_turn id) [
          | refused ↦ (create_failed, created ∷ marked_uncertain ∷ [])
          | throws ↦ (create_failed, created ∷ marked_uncertain ∷ [])
          | accepted ↦
              if continues s.on_continued
              then (bound_turn id true, created ∷ bound id ∷ continued_effects s.on_continued)
              else (create_failed, created ∷ bound id ∷ marked_uncertain ∷ [])
        ]
      ]

  unfoldable pub create_or_reconcile_component_continuation_turn :
      ContinuationSurroundings
      → (content : String → Json → String) → (run_token previous : String)
      → ComponentContinuationResponse
      → (local_id : Option String) → (force_reconcile : Bool) → Outcome × List Effect
  create_or_reconcile_component_continuation_turn s content run_token previous response local_id
        force =
      elim s.lock_for_create [
        | none ↦ (create_failed, [])
        | some state ↦ elim (seen_history (force || not (is_falsy local_id)) s.pages) [
          | none ↦ (create_failed, marked_uncertain ∷ [])
          | some history ↦ act_on_continuation_decision s state force (
              decide_create_or_reconcile_component_continuation_turn local_id history
                (hash_intent (continuation_input content run_token response) previous) previous)
        ]
      ]
