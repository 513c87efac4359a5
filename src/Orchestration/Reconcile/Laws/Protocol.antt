-- ===== src/Orchestration/Reconcile/Laws/Protocol.antt =====
-- The protocol that the three handlers of turn creation share, as an abstract machine.
use forge_room.Base.{
  ◌≤◌, String, Bool, true, false, not, Option, ◌≡◌, refl, inl, inr, ◌⊎◌, List, [], ◌∷◌, arith,
  Bool-cases, Option-cases, ◌||◌,
}
use forge_room.Orchestration.TurnQueue.{is_falsy}
use forge_room.Orchestration.Reconcile.{
  TurnInputItem, read_history, Decision, bind_existing, create_new, fail_closed, Effect, created,
  bound, marked_uncertain, continued, Outcome, bound_turn, ambiguous_history, create_failed,
  rejected,
}
use forge_room.Orchestration.Reconcile.Normal.{
  LockState, Surroundings, act_on_decision, create_or_reconcile_turn, is_uncertain,
}
use forge_room.Orchestration.Reconcile.Laws.Acts.{creations, BindAnswer-cases}

-- How far a handler is: nothing was asked for, a turn was created, a turn is bound, its interrupt
-- was continued, the turn is in doubt.
pub data Phase : Type 0 where
  waiting attempted doubtful : Phase
  settled finished : (turn_id : String) → Phase

-- The effects that each phase allows.
pub data Allows : Phase → Effect → Phase → Type 0 where
  creates : Allows waiting created attempted
  reconciles : {id : String} → Allows waiting (bound id) (settled id)
  gives_up : Allows waiting marked_uncertain doubtful
  binds : {id : String} → Allows attempted (bound id) (settled id)
  loses : Allows attempted marked_uncertain doubtful
  delivers : {id : String} → Allows (settled id) continued (finished id)
  recants : {id : String} → Allows (settled id) marked_uncertain doubtful

pub data Runs : Phase → List Effect → Phase → Type 0 where
  done : {p : Phase} → Runs p [] p
  then :
      {p q r : Phase} {e : Effect} {es : List Effect}
      → Allows p e q
      → Runs q es r
      → Runs p (e ∷ es) r

-- The phase that an outcome reports.
abbrev pub Reports : Outcome → Phase → Type 0
Reports (bound_turn id is_new) p = (p ≡ settled id) ⊎ (p ≡ finished id)
Reports ambiguous_history p = p ≡ doubtful
Reports create_failed p = (p ≡ doubtful) ⊎ (p ≡ waiting)
Reports rejected p = (p ≡ waiting) ⊎ ((id : String) × (p ≡ settled id))

-- The effects are a run of the protocol, to a phase that the outcome reports.
abbrev pub Refines : Outcome × List Effect → Type 0
Refines r = (p : Phase) × Runs waiting r.1 p × Reports r.0 p

abbrev is_waiting : Phase → Bool
is_waiting waiting = true
is_waiting _ = false

no_creation :
    {p q : Phase} {es : List Effect} → is_waiting p ≡ false → Runs p es q → creations es ≡ 0
no_creation h done = refl
no_creation h (then creates r) = absurd (cc)
no_creation h (then reconciles r) = absurd (cc)
no_creation h (then gives_up r) = absurd (cc)
no_creation h (then binds r) = no_creation refl r
no_creation h (then loses r) = no_creation refl r
no_creation h (then delivers r) = no_creation refl r
no_creation h (then recants r) = no_creation refl r

-- Whatever run of the protocol creates at most one turn.
pub protocol_creates_once : {q : Phase} {es : List Effect} → Runs waiting es q → creations es ≤ 1
protocol_creates_once done = omega arith
protocol_creates_once (then creates r) = omega (arith, no_creation {p = attempted} refl r)
protocol_creates_once (then (reconciles {id}) r) =
    omega (arith, no_creation {p = settled id} refl r)
protocol_creates_once (then gives_up r) = omega (arith, no_creation {p = doubtful} refl r)

-- Runs that the handlers make.
pub doubt : Runs waiting (marked_uncertain ∷ []) doubtful
doubt = then gives_up done

pub lost : Runs waiting (created ∷ marked_uncertain ∷ []) doubtful
lost = then creates (then loses done)

pub found : (id : String) → Runs waiting (bound id ∷ []) (settled id)
found id = then reconciles done

pub made : (id : String) → Runs waiting (created ∷ bound id ∷ []) (settled id)
made id = then creates (then binds done)

module _ (match_token : String → Option String) (hash_intent : List TurnInputItem → String → String)
    (s : Surroundings) where
  act-Refines :
      (state : LockState) (force : Bool) (d : Decision)
      → Refines (act_on_decision match_token hash_intent s state force d)
  unfolding act_on_decision
  act-Refines state force fail_closed = (doubtful, doubt, refl)
  act-Refines state force (bind_existing turn) = elim (BindAnswer-cases (s.bind_turn turn.id)) [
    | inl yes_bound ↦ rw (yes_bound, act_on_decision) (settled turn.id, found turn.id, inl refl)
    | inr (inl declined) ↦ rw (declined, act_on_decision) (doubtful, doubt, inl refl)
    | inr (inr fails) ↦ rw (fails, act_on_decision) (waiting, done, inl refl)
  ]
  act-Refines state force create_new = elim (Bool-cases (force || is_uncertain state)) [
    | inl closed ↦ rw (closed, act_on_decision) (doubtful, doubt, refl)
    | inr first ↦ elim (Option-cases s.create_turn) [
      | inl thrown ↦ rw (first, thrown, act_on_decision) (doubtful, lost, inl refl)
      | inr (id, answered) ↦ elim (BindAnswer-cases (s.bind_turn id)) [
        | inl yes_bound ↦
            rw (first, answered, yes_bound, act_on_decision) (settled id, made id, inl refl)
        | inr (inl declined) ↦
            rw (first, answered, declined, act_on_decision) (doubtful, lost, inl refl)
        | inr (inr fails) ↦ rw (first, answered, fails, act_on_decision) (doubtful, lost, inl refl)
      ]
    ]
  ]

  -- The handler of normal turns refines the protocol.
  pub normal-Refines :
      (run_token input_hash previous : String) (local_id : Option String) (force : Bool)
      → Refines (
          create_or_reconcile_turn match_token hash_intent s run_token input_hash previous local_id
            force)
  unfolding create_or_reconcile_turn
  normal-Refines run_token input_hash previous local_id force =
      elim (Option-cases s.lock_for_create) [
        | inl unlocked ↦ rw (unlocked, create_or_reconcile_turn) (waiting, done, inr refl)
        | inr (state, held) ↦ elim (Bool-cases (force || not (is_falsy local_id))) [
          | inr first ↦ rw (held, first, create_or_reconcile_turn) (act-Refines state force _)
          | inl looks ↦ elim (Option-cases (read_history [] s.pages)) [
            | inl unread ↦
                rw (held, looks, unread, create_or_reconcile_turn) (doubtful, doubt, inl refl)
            | inr (history, read) ↦
                rw (held, looks, read, create_or_reconcile_turn) (act-Refines state force _)
          ]
        ]
      ]
