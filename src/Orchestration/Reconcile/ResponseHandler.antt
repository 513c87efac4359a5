-- ===== src/Orchestration/Reconcile/ResponseHandler.antt =====
-- packages/orchestration/src/create-or-reconcile-response-turn.ts.
use forge_room.Base.{
  String, Bool, true, false, not, Option, none, some, if◌then◌else◌, List, [], ◌∷◌, ◌||◌, ok, err,
}
use forge_room.Orchestration.TurnQueue.{is_falsy}
use forge_room.Orchestration.Reconcile.{
  TurnInputItem, TrueForgeTurn, Page, read_history, Decision, bind_existing, create_new,
  fail_closed, Effect, created, bound, marked_uncertain, Outcome, bound_turn, ambiguous_history,
  create_failed, rejected,
}
use forge_room.Orchestration.Reconcile.Response.{decide_create_or_reconcile_response_turn}
use forge_room.Orchestration.Reconcile.ResponseInput.{
  PauseResumeResponseItem, build_response_only_turn_input,
}

-- What the surroundings answer; `bind_resume_turn` is false where it throws.
pub record ResumeSurroundings : Type 0 where
  pub locked : Bool
  pub pages : List Page
  pub bind_resume_turn : String → Bool
  pub create_turn : Option String

-- The history that the handler decides on; `none` if reading it throws.
abbrev pub seen_history : (looks : Bool) → List Page → Option (List TrueForgeTurn)
seen_history true pages = read_history [] pages
seen_history false pages = some []

module _ (before : String → String → Bool)
    (hash_intent : List TurnInputItem → String → String) where
  unfoldable pub act_on_response_decision : ResumeSurroundings → Decision → Outcome × List Effect
  act_on_response_decision s fail_closed = (ambiguous_history, marked_uncertain ∷ [])
  act_on_response_decision s (bind_existing turn) =
      if s.bind_resume_turn turn.id
      then (bound_turn turn.id false, bound turn.id ∷ [])
      else (rejected, [])
  act_on_response_decision s create_new = elim s.create_turn [
    | none ↦ (create_failed, created ∷ marked_uncertain ∷ [])
    | some id ↦
        if s.bind_resume_turn id
        then (bound_turn id true, created ∷ bound id ∷ [])
        else (create_failed, created ∷ marked_uncertain ∷ [])
  ]

  unfoldable pub create_or_reconcile_response_turn :
      ResumeSurroundings
      → (previous : String) → List PauseResumeResponseItem
      → (local_id : Option String) → (force_reconcile : Bool) → Outcome × List Effect
  create_or_reconcile_response_turn s previous responses local_id force =
      if not s.locked
      then (create_failed, [])
      else elim (build_response_only_turn_input before responses) [
        | err e ↦ (rejected, [])
        | ok input ↦ elim (seen_history (force || not (is_falsy local_id)) s.pages) [
          | none ↦ (create_failed, marked_uncertain ∷ [])
          | some history ↦ act_on_response_decision s (
              decide_create_or_reconcile_response_turn hash_intent local_id history
                (hash_intent input previous) previous)
        ]
      ]
