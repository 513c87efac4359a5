-- ===== src/Orchestration/PauseGroup/Laws/Plan.antt =====
-- The capture plan, for packages/orchestration/src/pause-group.ts.
use forge_room.Base.{
  ℕ, suc, ◌+◌, String, Bool, not, Option, none, some, List, [], ◌∷◌, map, filter, includes, ltb,
  length, ◌==◌, string_eq, nat_eq_instance, Result, ok, err, ok-injective, err_ok, ◌≡◌, ◌≢◌, refl,
  sym, ap, arith, Bool-cases, Option-cases, inl, inr, ◌⊎◌,
}
use mathlib.Core.Path.{subst}
use forge_room.Base.Distinct.{Distinct, Fresh, Fresh-iff}
use forge_room.Orchestration.PauseGroup.Actions.{
  RawRequiredAction, CapturedActionType, approval, question, connection, provider_action_id_of,
  tool_name_of, arguments_of, is_unexpected_child_action, classify_required_action_type,
}
use forge_room.Orchestration.PauseGroup.Capture.{
  PauseGroupCaptureAction, action_id, action_type, PauseGroupCapturePlan, PauseGroupCaptureFailure,
  CaptureSurroundings, capture_approval, capture_question, capture_connection, capture_one,
  Captures, rejecting, pushing, capture_from, plan_of, build_pause_group_capture_plan,
}

Result-cases :
    {E : Type 0} {A : Type 0} (r : Result E A) → ((e : E) × (r ≡ err e)) ⊎ ((a : A) × (r ≡ ok a))
Result-cases (err e) = inl (e, refl)
Result-cases (ok a) = inr (a, refl)

rejecting_ok :
    (r : Result PauseGroupCaptureFailure Captures) (out : Captures)
    → rejecting r ≡ ok out
    → (inner : Captures) × (r ≡ ok inner) × (out ≡ (inner.0, suc inner.1))
rejecting_ok (err reason) out h = absurd (err_ok h)
rejecting_ok (ok inner) out h = (inner, refl, sym (ok-injective h))

pushing_ok :
    (action : PauseGroupCaptureAction) (r : Result PauseGroupCaptureFailure Captures)
    (out : Captures)
    → pushing action r ≡ ok out
    → (inner : Captures) × (r ≡ ok inner) × (out ≡ (action ∷ inner.0, inner.1))
pushing_ok action (err reason) out h = absurd (err_ok h)
pushing_ok action (ok inner) out h = (inner, refl, sym (ok-injective h))

module _ (c : CaptureSurroundings) (persistent : Option String) where
  abbrev pub is_child : RawRequiredAction → Bool
  is_child raw = is_unexpected_child_action c.lower c.contains raw persistent

  abbrev pub own_actions : List RawRequiredAction → List RawRequiredAction
  own_actions = filter λ raw. not (is_child raw)

  approval_case :
      (raw : RawRequiredAction) (id : String) (action : PauseGroupCaptureAction)
      → capture_approval c persistent raw id ≡ ok action
      → (action_id action ≡ id) × (action_type action ≡ approval)
  unfolding capture_approval
  approval_case raw id action h = elim (Option-cases (tool_name_of raw)) [
    | inl unnamed ↦ absurd (err_ok (rw (unnamed, capture_approval) at h))
    | inr (name, named) ↦ elim (Option-cases (c.redact_approval name (arguments_of raw))) [
      | inl threw ↦ absurd (err_ok (rw (named, threw, capture_approval) at h))
      | inr (r, redacted) ↦
          let e = ok-injective (rw (named, redacted, capture_approval) at h) in
          subst (λ a. (action_id a ≡ id) × (action_type a ≡ approval)) e (refl, refl)
    ]
  ]

  -- A captured action has the id that was read, and the type of its raw action.
  capture_one_ok :
      (raw : RawRequiredAction) (id : String) (action : PauseGroupCaptureAction)
      → capture_one c persistent raw id ≡ ok action
      → (action_id action ≡ id)
        × (classify_required_action_type c.lower c.contains raw ≡ some (action_type action))
  unfolding capture_one capture_question capture_connection
  capture_one_ok raw id action h =
      kind_case (classify_required_action_type c.lower c.contains raw) refl h
    where
      kind_case :
          (kind : Option CapturedActionType)
          → classify_required_action_type c.lower c.contains raw ≡ kind
          → capture_one c persistent raw id ≡ ok action
          → (action_id action ≡ id) × (kind ≡ some (action_type action))
      kind_case none e h = absurd (err_ok (rw (e, capture_one) at h))
      kind_case (some approval) e h =
          let (same, is_one) = approval_case raw id action (rw (e, capture_one) at h) in
          (same, ap some (sym is_one))
      kind_case (some question) e h =
          subst (λ a. (action_id a ≡ id) × (some question ≡ some (action_type a)))
            (ok-injective (rw (e, capture_one) at h)) (refl, refl)
      kind_case (some connection) e h =
          subst (λ a. (action_id a ≡ id) × (some connection ≡ some (action_type a)))
            (ok-injective (rw (e, capture_one) at h)) (refl, refl)

  -- What the loop has captured of the raw actions, in their order.
  abbrev pub AreCaptures : List RawRequiredAction → Captures → Type 0
  AreCaptures raws (actions, rejected) =
      (map (λ a. some (action_id a)) actions ≡ map provider_action_id_of (own_actions raws))
      × (map (λ a. some (action_type a)) actions
          ≡ map (classify_required_action_type c.lower c.contains) (own_actions raws))
      × (length actions + rejected ≡ length raws)

  capture_from_ok :
      (seen : List String) (raws : List RawRequiredAction) (out : Captures)
      → capture_from c persistent seen raws ≡ ok out
      → AreCaptures raws out × Fresh seen (map action_id out.0)
  unfolding capture_from
  capture_from_ok seen [] out h =
      subst (λ o. AreCaptures [] o × Fresh seen (map action_id o.0)) (ok-injective h)
        ((refl, refl, omega arith), tt)
  capture_from_ok seen (raw ∷ raws) out h = elim (Bool-cases (is_child raw)) [
    | inl child ↦
        let (inner, done, shape) =
          rejecting_ok (capture_from c persistent seen raws) out (rw (child, capture_from) at h) in
        let ((ids, types, number), fresh) = capture_from_ok seen raws inner done in
        rw (shape, child) ((ids, types, omega (arith, number)), fresh)
    | inr own ↦ elim (Option-cases (provider_action_id_of raw)) [
      | inl unnamed ↦ absurd (err_ok (rw (own, unnamed, capture_from) at h))
      | inr (id, named) ↦ elim (Bool-cases (includes seen id)) [
        | inl old ↦ absurd (err_ok (rw (own, named, old, capture_from) at h))
        | inr new ↦ elim (Result-cases (capture_one c persistent raw id)) [
          | inl (reason, failed) ↦ absurd (err_ok (rw (own, named, new, failed, capture_from) at h))
          | inr (action, one) ↦
              let (inner, done, shape) =
                pushing_ok action (capture_from c persistent (id ∷ seen) raws) out
                  (rw (own, named, new, one, capture_from) at h) in
              let (same, kind) = capture_one_ok raw id action one in
              let ((ids, types, number), fresh) = capture_from_ok (id ∷ seen) raws inner done in
              rw (shape, own, same, named, kind, ids, types)
                ((refl, refl, omega (arith, number)), (new, fresh))
        ]
      ]
    ]
  ]

-- What a capture plan for the raw actions `required` holds.
pub record IsCapture (c : CaptureSurroundings) (persistent : Option String)
    (required : List RawRequiredAction) (plan : PauseGroupCapturePlan) : Type 0 where
  pub some_action : plan.actions ≢ []
  pub distinct_ids : Distinct (map action_id plan.actions)
  pub captures : AreCaptures c persistent required (plan.actions, plan.rejected_child_count)

plan_of_ok :
    (turn : String) (generation : ℕ) (out : Captures) (plan : PauseGroupCapturePlan)
    → plan_of turn generation out ≡ ok plan
    → (plan.actions ≢ []) × (plan.actions ≡ out.0) × (plan.rejected_child_count ≡ out.1)
plan_of_ok turn generation ([], rejected) plan h = elim (Bool-cases (ltb 0 rejected)) [
  | inl some_child ↦ absurd (err_ok (rw some_child at h))
  | inr no_child ↦ absurd (err_ok (rw no_child at h))
]
plan_of_ok turn generation (action ∷ actions, rejected) plan h =
    subst
      (λ (p : PauseGroupCapturePlan).
        (p.actions ≢ []) × (p.actions ≡ action ∷ actions) × (p.rejected_child_count ≡ rejected))
      (ok-injective h) ((λ e. cc), refl, refl)

-- A capture plan that is made has at least one action, and no two with the same id. Its actions are
-- those asked for that are not of a child thread, in their order, each with the id that was read and
-- the type that it was classified as; these and the rejected ones are as many as were asked for.
pub plan_captures :
    (c : CaptureSurroundings) (persistent : Option String) (turn : String) (generation : ℕ)
    (required : List RawRequiredAction) (plan : PauseGroupCapturePlan)
    → build_pause_group_capture_plan c persistent turn generation required ≡ ok plan
    → IsCapture c persistent required plan
unfolding build_pause_group_capture_plan
plan_captures c persistent turn generation required plan h =
    elim (Bool-cases (length required == 0)) [
      | inl empty ↦ absurd (err_ok (rw (empty, build_pause_group_capture_plan) at h))
      | inr full ↦ elim (Result-cases (capture_from c persistent [] required)) [
        | inl (reason, failed) ↦
            absurd (err_ok (rw (full, failed, build_pause_group_capture_plan) at h))
        | inr (out, done) ↦
            let made = rw (full, done, build_pause_group_capture_plan) at h in
            let (some_one, actions, rejected) = plan_of_ok turn generation out plan made in
            let (right, fresh) = capture_from_ok c persistent [] required out done in
            record {
              some_action = some_one;
              distinct_ids = rw actions ((Fresh-iff (map action_id out.0)).0 fresh);
              captures = rw (actions, rejected) right;
            }
      ]
    ]
