-- ===== src/Domain/Transitions/Laws/Gates.antt =====
-- The states through which a history passes, for the tables of
-- packages/domain/src/transitions.ts.
use forge_room.Base.{ℕ, ◌+◌, Bool-cases, Bool, true, false, ◌≡◌, ◌⊎◌, refl, inl, inr, arith}
use forge_room.Base.Machine.{Trace, Trace-gate, PassesThrough, pass_at_start}
use forge_room.Domain.Transitions.Draft.{CoworkerDraftState, can_transition_coworker_draft}
use forge_room.Domain.Transitions.Pause.{PauseGroupState, can_transition_pause_group}
use forge_room.Domain.Transitions.Proposal.{ActionProposalState, can_transition_action_proposal}

-- The states in which the action has been, or may have been, carried out.
abbrev pub has_effect : ActionProposalState → Bool
has_effect ActionProposalState.executing = true
has_effect ActionProposalState.succeeded = true
has_effect ActionProposalState.failed = true
has_effect ActionProposalState.unknown = true
has_effect ActionProposalState.reconciled_succeeded = true
has_effect ActionProposalState.reconciled_failed = true
has_effect _ = false

-- The same with the recorded decision to allow it.
abbrev past_allowed : ActionProposalState → Bool
past_allowed ActionProposalState.allowed = true
past_allowed s = has_effect s

allowed_first :
    (s t : ActionProposalState)
    → can_transition_action_proposal s t ≡ true
    → past_allowed t ≡ true
    → (past_allowed s ≡ true) ⊎ (t ≡ ActionProposalState.allowed)
unfolding can_transition_action_proposal
allowed_first s t m h = ground arith

past_allowed_of_effect : (t : ActionProposalState) → has_effect t ≡ true → past_allowed t ≡ true
past_allowed_of_effect t h = ground arith

allowed_of_past :
    (s : ActionProposalState)
    → past_allowed s ≡ true
    → has_effect s ≡ false
    → ActionProposalState.allowed ≡ s
allowed_of_past s h out = ground arith

-- A proposal that starts undecided, or decided against, has an effect only after it was allowed.
pub effect_needs_allowed :
    {s t : ActionProposalState} {n : ℕ}
    → has_effect s ≡ false
    → Trace can_transition_action_proposal s t n
    → has_effect t ≡ true
    → PassesThrough can_transition_action_proposal ActionProposalState.allowed s t n
effect_needs_allowed {s} {t} {n} out tr h = elim (Bool-cases (past_allowed s)) [
  | inl in_s ↦ pass_at_start can_transition_action_proposal _ (allowed_of_past s in_s out) tr
  | inr out_s ↦
      Trace-gate _ past_allowed ActionProposalState.allowed allowed_first out_s tr
        (past_allowed_of_effect t h)
]

abbrev pub past_ready : PauseGroupState → Bool
past_ready PauseGroupState.ready = true
past_ready PauseGroupState.resuming = true
past_ready PauseGroupState.resumed = true
past_ready PauseGroupState.uncertain = true
past_ready _ = false

ready_first :
    (s t : PauseGroupState)
    → can_transition_pause_group s t ≡ true
    → past_ready t ≡ true
    → (past_ready s ≡ true) ⊎ (t ≡ PauseGroupState.ready)
unfolding can_transition_pause_group
ready_first s t m h = ground arith

-- A pause group that starts in `collecting` begins to resume, or ends past it, only after it was
-- `ready`.
resume_needs_ready :
    {t : PauseGroupState} {n : ℕ}
    → Trace can_transition_pause_group PauseGroupState.collecting t n
    → past_ready t ≡ true
    → PassesThrough can_transition_pause_group PauseGroupState.ready PauseGroupState.collecting t n
resume_needs_ready tr h = Trace-gate _ past_ready PauseGroupState.ready ready_first refl tr h

-- The states of a draft that a person has confirmed.
abbrev pub past_confirmed : CoworkerDraftState → Bool
past_confirmed CoworkerDraftState.confirmed = true
past_confirmed CoworkerDraftState.provisioning = true
past_confirmed CoworkerDraftState.ready = true
past_confirmed CoworkerDraftState.failed_provisioning = true
past_confirmed _ = false

abbrev past_review : CoworkerDraftState → Bool
past_review CoworkerDraftState.awaiting_review = true
past_review s = past_confirmed s

confirmed_first :
    (s t : CoworkerDraftState)
    → can_transition_coworker_draft s t ≡ true
    → past_confirmed t ≡ true
    → (past_confirmed s ≡ true) ⊎ (t ≡ CoworkerDraftState.confirmed)
unfolding can_transition_coworker_draft
confirmed_first s t m h = ground arith

review_first :
    (s t : CoworkerDraftState)
    → can_transition_coworker_draft s t ≡ true
    → past_review t ≡ true
    → (past_review s ≡ true) ⊎ (t ≡ CoworkerDraftState.awaiting_review)
unfolding can_transition_coworker_draft
review_first s t m h = ground arith

-- A coworker draft that starts in `draft` is provisioned, made ready or fails to provision only
-- after it awaited review and was confirmed, in this order.
pub provisioning_needs_review :
    {t : CoworkerDraftState} {n : ℕ}
    → Trace can_transition_coworker_draft CoworkerDraftState.draft t n
    → past_confirmed t ≡ true
    → (m : ℕ) × (k : ℕ) × PassesThrough can_transition_coworker_draft
        CoworkerDraftState.awaiting_review CoworkerDraftState.draft CoworkerDraftState.confirmed m
      × Trace can_transition_coworker_draft CoworkerDraftState.confirmed t k
      × (m + k ≡ n)
provisioning_needs_review tr h =
    let (m, k, before, after, e) =
      Trace-gate _ past_confirmed CoworkerDraftState.confirmed confirmed_first refl tr h in
    (
      m,
      k,
      Trace-gate _ past_review CoworkerDraftState.awaiting_review review_first refl before refl,
      after,
      e,
    )
