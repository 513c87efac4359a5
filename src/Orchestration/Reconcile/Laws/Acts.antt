-- ===== src/Orchestration/Reconcile/Laws/Acts.antt =====
-- What the handler does on a decision.

use forge_room.Base.{
  ℕ, String, Bool, true, false, Option, none, some, string_eq, List, [], ◌∷◌, ◌||◌, ◌≡◌, ◌≢◌, ◌⊎◌,
  inl, inr, refl, arith, Bool-cases, ◌+◌, ◌≤◌, Option-cases,
}
use forge_room.Orchestration.Reconcile.{
  TurnInputItem, TrueForgeTurn, Decision, bind_existing, create_new, fail_closed, Effect, created,
  bound, marked_uncertain, Outcome, bound_turn, ambiguous_history, create_failed, rejected,
  BindAnswer, accepted, refused, throws,
}
use forge_room.Orchestration.Reconcile.Normal.{
  LockState, uncertain, Surroundings, act_on_decision, is_uncertain,
}

-- How often the handler asked for a new remote turn.
abbrev pub creations : List Effect → ℕ
creations [] = 0
creations (created ∷ effects) = 1 + creations effects
creations (_ ∷ effects) = creations effects

abbrev pub last_effect : List Effect → Option Effect
last_effect [] = none
last_effect (x ∷ []) = some x
last_effect (x ∷ y ∷ rest) = last_effect (y ∷ rest)

pub BindAnswer-cases : (b : BindAnswer) → (b ≡ accepted) ⊎ (b ≡ refused) ⊎ (b ≡ throws)
BindAnswer-cases accepted = inl refl
BindAnswer-cases refused = inr (inl refl)
BindAnswer-cases throws = inr (inr refl)

module _ (match_token : String → Option String) (hash_intent : List TurnInputItem → String → String)
    (s : Surroundings) where
  pub act_once :
      (state : LockState) (force : Bool) (d : Decision)
      → let effects = (act_on_decision match_token hash_intent s state force d).1 in
        (creations effects ≤ 1)
        × ((force ≡ true) ⊎ (state ≡ uncertain) ⊎ (d ≢ create_new) → creations effects ≡ 0)
  unfolding act_on_decision
  act_once state force fail_closed = (omega arith, λ h. refl)
  act_once state force (bind_existing turn) = ground arith
  act_once state force create_new = ground arith

  -- A turn was bound last and is reported, or the turn was marked as uncertain and a failure is
  -- reported.
  abbrev pub Settled : Outcome × List Effect → Type 0
  Settled r =
      ((id : String) × (is_new : Bool) × (r.0 ≡ bound_turn id is_new)
        × (last_effect r.1 ≡ some (bound id)))
      ⊎ (((r.0 ≡ ambiguous_history) ⊎ (r.0 ≡ create_failed))
          × (last_effect r.1 ≡ some marked_uncertain))

  -- The decision was to bind a turn of the history, and `bindTurn` threw: nothing was marked.
  abbrev pub Thrown : Decision → Outcome × List Effect → Type 0
  Thrown d r =
      (turn : TrueForgeTurn) × (d ≡ bind_existing turn)
      × (s.bind_turn turn.id ≡ throws)
      × (r.0 ≡ rejected)
      × (r.1 ≡ [])

  pub act-Settled :
      (state : LockState) (force : Bool) (d : Decision)
      → Settled (act_on_decision match_token hash_intent s state force d)
        ⊎ Thrown d (act_on_decision match_token hash_intent s state force d)
  unfolding act_on_decision
  act-Settled state force fail_closed = inl (inr (inl refl, refl))
  act-Settled state force (bind_existing turn) = elim (BindAnswer-cases (s.bind_turn turn.id)) [
    | inl works ↦ inl (inl (turn.id, false, ground arith, ground arith))
    | inr (inl declined) ↦ inl (inr (inr (ground arith), ground arith))
    | inr (inr fails) ↦ inr (turn, refl, fails, ground arith, ground arith)
  ]
  act-Settled state force create_new = elim (Bool-cases (force || is_uncertain state)) [
    | inl closed ↦ inl (inr (inl (ground arith), ground arith))
    | inr first ↦ elim (Option-cases s.create_turn) [
      | inl thrown ↦ inl (inr (inr (ground arith), ground arith))
      | inr (id, made) ↦ elim (BindAnswer-cases (s.bind_turn id)) [
        | inl works ↦ inl (inl (id, true, ground arith, ground arith))
        | inr (inl declined) ↦ inl (inr (inr (ground arith), ground arith))
        | inr (inr fails) ↦ inl (inr (inr (ground arith), ground arith))
      ]
    ]
  ]
