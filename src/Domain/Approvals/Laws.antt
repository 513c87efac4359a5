-- ===== src/Domain/Approvals/Laws.antt =====
-- What the gate of an approval decision admits, and what it marks.
use mathlib.Core.Option.{some-injective}
use mathlib.Core.Path.{subst}
use forge_room.Domain.Transitions.Proposal.{ActionProposalState, can_transition_action_proposal}
use forge_room.Base.{
  ℕ, String, true, false, Option, none, some, ◌≡◌, ◌≢◌, ◌↔◌, ◌⊎◌, arith, eq_iff, ◌==◌, string_eq,
  refl, sym,
}
use forge_room.Domain.Approvals.{
  ProposalDecisionSnapshot, ApprovalDecisionCommand, ApprovalCard, build_approval_card, pass,
  refuse, Mark, mark_expired, mark_stale, evaluate_approval_decision_gate, date_le, bindings_match,
  GateReason,
}

-- The command binds the proposal that the card shows, and the live session and policy are those
-- under which it was made.
pub record IsBound (s : ProposalDecisionSnapshot) (c : ApprovalDecisionCommand) : Type 0 where
  pub arguments : s.arguments_hash ≡ c.expected_arguments_hash
  pub descriptor : s.observed_descriptor_hash ≡ c.expected_descriptor_hash
  pub generation : s.session_generation ≡ c.expected_session_generation
  pub live_generation : s.live_session_generation ≡ s.session_generation
  pub live_policy : s.live_approval_policy_hash ≡ s.approval_policy_hash

bindings_match_iff :
    (s : ProposalDecisionSnapshot) (c : ApprovalDecisionCommand)
    → (bindings_match s c ≡ true) ↔ IsBound s c
bindings_match_iff s c = ground (
  arith,
  eq_iff s.arguments_hash c.expected_arguments_hash,
  eq_iff s.observed_descriptor_hash c.expected_descriptor_hash,
  eq_iff s.live_approval_policy_hash s.approval_policy_hash,
)

-- The tests of the state, and that no text passes two of them.
state_tests :
    (state : String)
    → (((state == "allowed") ≡ true) ↔ (state ≡ "allowed"))
      × (((state == "denied") ≡ true) ↔ (state ≡ "denied"))
      × (((state == "expired") ≡ true) ↔ (state ≡ "expired"))
      × (((state == "stale") ≡ true) ↔ (state ≡ "stale"))
      × (((state == "proposed") ≡ true) ↔ (state ≡ "proposed"))
      × (state ≡ "proposed"
          → (state ≢ "allowed") × (state ≢ "denied") × (state ≢ "expired") × (state ≢ "stale"))
state_tests state = (
  eq_iff state "allowed",
  eq_iff state "denied",
  eq_iff state "expired",
  eq_iff state "stale",
  eq_iff state "proposed",
  λ e. rw e (
      ground (
        arith,
        eq_iff "proposed" "allowed",
        eq_iff "proposed" "denied",
        eq_iff "proposed" "expired",
        eq_iff "proposed" "stale",
      )),
)

-- What the gate asks of a proposal.
pub record IsOpen (parse_date : String → Option ℕ) (s : ProposalDecisionSnapshot) (now : String)
    : Type 0 where
  pub proposed : s.state ≡ "proposed"
  pub unexpired : date_le (parse_date s.expires_at) (parse_date now) ≡ false

module _ (parse_date : String → Option ℕ) (s : ProposalDecisionSnapshot)
    (c : ApprovalDecisionCommand) (now : String) where
  gate_iff :
      (evaluate_approval_decision_gate parse_date (some s) c now ≡ pass)
      ↔ (IsOpen parse_date s now × (bindings_match s c ≡ true))
  unfolding evaluate_approval_decision_gate
  gate_iff = ground (arith, state_tests s.state)

  gate_mark :
      (r : GateReason) (m : Mark)
      → evaluate_approval_decision_gate parse_date (some s) c now ≡ refuse r (some m)
      → (s.state ≡ "proposed")
          × (m ≡ mark_expired)
          × (date_le (parse_date s.expires_at) (parse_date now) ≡ true)
        ⊎ (IsOpen parse_date s now × (m ≡ mark_stale) × (bindings_match s c ≡ false))
  unfolding evaluate_approval_decision_gate
  gate_mark r m h = ground (arith, state_tests s.state)

-- The proposal state that a mark stands for.
abbrev pub marked : Mark → ActionProposalState
marked mark_expired = ActionProposalState.expired
marked mark_stale = ActionProposalState.stale

marked_accepted :
    (m : Mark) → can_transition_action_proposal ActionProposalState.proposed (marked m) ≡ true
unfolding can_transition_action_proposal
marked_accepted mark_expired = refl
marked_accepted mark_stale = refl

-- The command of a person who decides on what the card shows.
abbrev pub quote_card : ApprovalCard → ApprovalDecisionCommand
quote_card card = record {
  expected_arguments_hash = card.arguments_hash;
  expected_descriptor_hash = card.observed_descriptor_hash;
  expected_session_generation = card.session_generation;
}

module _ (parse_date : String → Option ℕ) where
  -- The gate passes a decision exactly when the proposal is on record, is in state `proposed`, has
  -- not reached its expiry, and the command and the live session and policy are those it is bound
  -- to.
  pub gate_passes_iff :
      (found : Option ProposalDecisionSnapshot) (c : ApprovalDecisionCommand) (now : String)
      → (evaluate_approval_decision_gate parse_date found c now ≡ pass) ↔ (
          (s : ProposalDecisionSnapshot) × (found ≡ some s) × IsOpen parse_date s now × IsBound s c)
  unfolding evaluate_approval_decision_gate
  gate_passes_iff none c now = (λ h. absurd (cc), λ h. absurd (ground arith))
  gate_passes_iff (some s) c now = (
    λ h.
        let (open_now, bound) = (gate_iff parse_date s c now).0 h in
        (s, refl, open_now, (bindings_match_iff s c).0 bound),
    λ h.
        let (t, e, open_now, bound) = h in
        let same = some-injective s t e in
        (gate_iff parse_date s c now).1 (
          subst (λ x. IsOpen parse_date x now) (sym same) open_now,
          (bindings_match_iff s c).1 (subst (λ x. IsBound x c) (sym same) bound),
        ),
  )

  -- The gate asks for a mark only on a proposal in state `proposed`: `expired` when its expiry has
  -- been reached, and `stale` when it has not and the command or the live session or policy differ
  -- from what it is bound to. Both marks are accepted moves of the proposal's table.
  pub gate_marks :
      (found : Option ProposalDecisionSnapshot) (c : ApprovalDecisionCommand) (now : String)
      (r : GateReason) (m : Mark)
      → evaluate_approval_decision_gate parse_date found c now ≡ refuse r (some m)
      → (s : ProposalDecisionSnapshot) × (found ≡ some s)
        × ((s.state ≡ "proposed")
              × (m ≡ mark_expired)
              × (date_le (parse_date s.expires_at) (parse_date now) ≡ true)
            ⊎ (IsOpen parse_date s now × (m ≡ mark_stale) × (¬ IsBound s c)))
        × (can_transition_action_proposal ActionProposalState.proposed (marked m) ≡ true)
  unfolding evaluate_approval_decision_gate
  gate_marks none c now r m h = absurd (cc)
  gate_marks (some s) c now r m h = (
    s,
    refl,
    ground (arith, gate_mark parse_date s c now r m h, bindings_match_iff s c),
    marked_accepted m,
  )

  -- A decision that quotes the hashes and the generation on the approval card of a proposal passes
  -- exactly when the proposal is open and its policy and session generation are the live ones.
  pub card_decision_iff :
      (s : ProposalDecisionSnapshot) (now : String)
      → (evaluate_approval_decision_gate parse_date
            (some s)
            (quote_card (build_approval_card s))
            now
          ≡ pass)
        ↔ (IsOpen parse_date s now
            × (s.live_session_generation ≡ s.session_generation)
            × (s.live_approval_policy_hash ≡ s.approval_policy_hash))
  unfolding build_approval_card
  card_decision_iff s now =
      let c = quote_card (build_approval_card s) in
      ground (arith, gate_iff parse_date s c now, bindings_match_iff s c)
