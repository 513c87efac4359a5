-- ===== src/Orchestration/Reconcile/Laws/Resume.antt =====
-- The handlers of response turns and of component continuations.
use forge_room.Base.{
  String, Bool, true, false, not, Option, none, some, ◌≡◌, refl, inl, inr, ◌⊎◌, ◌↔◌, ◌∙◌, sym, List,
  arith, Bool-cases, Option-cases, ◌||◌, Result, ok, err, err_ok,
}
use forge_room.Base.Json.{Json}
use forge_room.Orchestration.TurnQueue.{is_falsy}
use forge_room.Orchestration.Reconcile.{
  TurnInputItem, TrueForgeTurn, Decision, bind_existing, create_new, fail_closed, Effect, Outcome,
}
use forge_room.Orchestration.Reconcile.Normal.{LockState, is_uncertain}
use forge_room.Orchestration.Reconcile.Response.{decide_create_or_reconcile_response_turn}
use forge_room.Orchestration.Reconcile.ResponseInput.{
  PauseResumeResponseItem, build_response_only_turn_input, InputError,
}
use forge_room.Orchestration.Reconcile.ResponseHandler.{
  ResumeSurroundings, seen_history, act_on_response_decision, create_or_reconcile_response_turn,
}
use forge_room.Orchestration.Reconcile.Continuation.{
  ComponentContinuationResponse, ContinuationSurroundings, continues, continued_effects,
  act_on_continuation_decision, create_or_reconcile_component_continuation_turn,
}
use forge_room.Orchestration.Reconcile.Laws.Acts.{creations, BindAnswer-cases}
use forge_room.Orchestration.Reconcile.Laws.Protocol.{
  Phase, waiting, doubtful, settled, finished, Runs, done, then, creates, binds, reconciles,
  delivers, recants, Refines, doubt, lost, found, made,
}

some-injective :
    (a b : List TrueForgeTurn) → ◌≡◌ {A = Option (List TrueForgeTurn)} (some a) (some b) → a ≡ b
some-injective a b h = cc

ok-injective :
    (a b : List TurnInputItem)
    → ◌≡◌ {A = Result InputError (List TurnInputItem)} (ok a) (ok b)
    → a ≡ b
ok-injective a b h = cc

module _ (before : String → String → Bool) (hash_intent : List TurnInputItem → String → String)
    (s : ResumeSurroundings) where
  response_act-Refines : (d : Decision) → Refines (act_on_response_decision before hash_intent s d)
  unfolding act_on_response_decision
  response_act-Refines fail_closed = (doubtful, doubt, refl)
  response_act-Refines (bind_existing turn) = elim (Bool-cases (s.bind_resume_turn turn.id)) [
    | inl works ↦ rw (works, act_on_response_decision) (settled turn.id, found turn.id, inl refl)
    | inr throws ↦ rw (throws, act_on_response_decision) (waiting, done, inl refl)
  ]
  response_act-Refines create_new = elim (Option-cases s.create_turn) [
    | inl thrown ↦ rw (thrown, act_on_response_decision) (doubtful, lost, inl refl)
    | inr (id, answered) ↦ elim (Bool-cases (s.bind_resume_turn id)) [
      | inl works ↦ rw (answered, works, act_on_response_decision) (settled id, made id, inl refl)
      | inr throws ↦ rw (answered, throws, act_on_response_decision) (doubtful, lost, inl refl)
    ]
  ]

  module _ (previous : String) (responses : List PauseResumeResponseItem) (local_id : Option String)
      (force : Bool) where
    abbrev pub resume : Outcome × List Effect
    resume =
        create_or_reconcile_response_turn before hash_intent s previous responses local_id force

    abbrev pub looks : Bool
    looks = force || not (is_falsy local_id)

    -- The handler of response turns refines the protocol.
    pub response-Refines : Refines resume
    unfolding create_or_reconcile_response_turn
    response-Refines = elim (Bool-cases s.locked) [
      | inr refused ↦ rw (refused, create_or_reconcile_response_turn) (waiting, done, inr refl)
      | inl held ↦ input_case (build_response_only_turn_input before responses) refl held
    ]
      where
        input_case :
            (b : Result InputError (List TurnInputItem))
            → build_response_only_turn_input before responses ≡ b
            → s.locked ≡ true
            → Refines resume
        input_case (err e) built held =
            rw (held, built, create_or_reconcile_response_turn) (waiting, done, inl refl)
        input_case (ok input) built held = elim (Option-cases (seen_history looks s.pages)) [
          | inl unread ↦
              rw (held, built, unread, create_or_reconcile_response_turn)
                (doubtful, doubt, inl refl)
          | inr (history, read) ↦
              rw (held, built, read, create_or_reconcile_response_turn) (response_act-Refines _)
        ]

    act_creations :
        (d : Decision)
        → (creations (act_on_response_decision before hash_intent s d).1 ≡ 1) ↔ (d ≡ create_new)
    unfolding act_on_response_decision
    act_creations fail_closed = ground arith
    act_creations (bind_existing turn) = ground arith
    act_creations create_new = ground arith

    -- When the handler creates: each step before the call of `createTurn` came to an answer.
    abbrev pub Creates : Type 0
    Creates =
        (s.locked ≡ true)
        × ((input : List TurnInputItem) × (history : List TrueForgeTurn)
            × (build_response_only_turn_input before responses ≡ ok input)
            × (seen_history looks s.pages ≡ some history)
            × (decide_create_or_reconcile_response_turn hash_intent local_id history
                  (hash_intent input previous) previous
                ≡ create_new))

    -- The handler asks for a new response turn exactly when it holds the lock, its input can be
    -- built, the history can be read or is not looked at, and the decision on the two is to create,
    -- also when it was told to reconcile.
    pub response_created_iff : (creations resume.1 ≡ 1) ↔ Creates
    unfolding create_or_reconcile_response_turn
    response_created_iff = by_input (build_response_only_turn_input before responses) refl
      where
        by_input :
            (b : Result InputError (List TurnInputItem))
            → build_response_only_turn_input before responses ≡ b
            → (creations resume.1 ≡ 1) ↔ Creates
        by_input (err e) unbuilt = (
          λ h. absurd (ground arith),
          λ h. let (held, (_, _, built, _, _)) = h in absurd (err_ok (sym unbuilt ∙ built)),
        )
        by_input (ok input) built = elim (Option-cases (seen_history looks s.pages)) [
          | inl unread ↦ (λ h. absurd (ground arith), λ h. absurd (ground arith))
          | inr (history, read) ↦
              let decided =
                decide_create_or_reconcile_response_turn hash_intent local_id history
                  (hash_intent input previous) previous in
              let acted = act_creations decided in
              (
                λ h. elim (Bool-cases s.locked) [
                  | inl held ↦ (held, (input, history, built, read, ground arith))
                  | inr refused ↦ absurd (ground arith)
                ],
                λ h.
                    let (held, (input', other, built', also, decides)) = h in
                    let same : history ≡ other = some-injective history other (sym read ∙ also) in
                    let same_input : input ≡ input' =
                      ok-injective input input' (sym built ∙ built') in
                    ground arith,
              )
        ]

module _ (hash_intent : List TurnInputItem → String → String) (s : ContinuationSurroundings) where
  -- The effects behind a bind, when `onContinued` is absent or succeeds.
  after_bind :
      (id : String) (c : Option Bool)
      → continues c ≡ true
      → (p : Phase) × Runs (settled id) (continued_effects c) p
        × ((p ≡ settled id) ⊎ (p ≡ finished id))
  after_bind id none h = (settled id, done, inl refl)
  after_bind id (some true) h = (finished id, then delivers done, inr refl)
  after_bind id (some false) h = absurd (cc)

  continuation_act-Refines :
      (state : LockState) (force : Bool) (d : Decision)
      → Refines (act_on_continuation_decision hash_intent s state force d)
  unfolding act_on_continuation_decision
  continuation_act-Refines state force fail_closed = (doubtful, doubt, refl)
  continuation_act-Refines state force (bind_existing turn) =
      elim (BindAnswer-cases (s.bind_turn turn.id)) [
        | inr (inl declined) ↦
            rw (declined, act_on_continuation_decision) (doubtful, doubt, inl refl)
        | inr (inr fails) ↦ rw (fails, act_on_continuation_decision) (waiting, done, inl refl)
        | inl works ↦ elim (Bool-cases (continues s.on_continued)) [
          | inl goes_on ↦
              let (p, r, e) = after_bind turn.id s.on_continued goes_on in
              rw (works, goes_on, act_on_continuation_decision) (p, then reconciles r, e)
          | inr throws ↦
              rw (works, throws, act_on_continuation_decision)
                (settled turn.id, found turn.id, inr (turn.id, refl))
        ]
      ]
  continuation_act-Refines state force create_new =
      elim (Bool-cases (force || is_uncertain state)) [
        | inl closed ↦ rw (closed, act_on_continuation_decision) (doubtful, doubt, refl)
        | inr first ↦ elim (Option-cases s.create_turn) [
          | inl thrown ↦ rw (first, thrown, act_on_continuation_decision) (doubtful, lost, inl refl)
          | inr (id, answered) ↦ elim (BindAnswer-cases (s.bind_turn id)) [
            | inr (inl declined) ↦
                rw (first, answered, declined, act_on_continuation_decision)
                  (doubtful, lost, inl refl)
            | inr (inr fails) ↦
                rw (first, answered, fails, act_on_continuation_decision) (doubtful, lost, inl refl)
            | inl works ↦ elim (Bool-cases (continues s.on_continued)) [
              | inl goes_on ↦
                  let (p, r, e) = after_bind id s.on_continued goes_on in
                  rw (first, answered, works, goes_on, act_on_continuation_decision)
                    (p, then creates (then binds r), e)
              | inr throws ↦
                  rw (first, answered, works, throws, act_on_continuation_decision)
                    (doubtful, then creates (then binds (then recants done)), inl refl)
            ]
          ]
        ]
      ]

  module _ (content : String → Json → String) (run_token previous : String)
      (response : ComponentContinuationResponse) (local_id : Option String) (force : Bool) where
    abbrev pub continuation : Outcome × List Effect
    continuation =
        create_or_reconcile_component_continuation_turn hash_intent s content run_token previous
          response local_id force

    -- The handler of component continuations refines the protocol.
    pub continuation-Refines : Refines continuation
    unfolding create_or_reconcile_component_continuation_turn
    continuation-Refines = elim (Option-cases s.lock_for_create) [
      | inl refused ↦
          rw (refused, create_or_reconcile_component_continuation_turn) (waiting, done, inr refl)
      | inr (state, held) ↦
          elim (Option-cases (seen_history (force || not (is_falsy local_id)) s.pages)) [
            | inl unread ↦
                rw (held, unread, create_or_reconcile_component_continuation_turn)
                  (doubtful, doubt, inl refl)
            | inr (history, read) ↦
                rw (held, read, create_or_reconcile_component_continuation_turn)
                  (continuation_act-Refines state force _)
          ]
    ]
