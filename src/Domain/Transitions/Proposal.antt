-- ===== src/Domain/Transitions/Proposal.antt =====
-- packages/domain/src/transitions.ts: the states of an action proposal.
use forge_room.Base.{Bool, List, [], ◌∷◌, includes, Eq, enum_eq}

pub data ActionProposalState : Type 0 where
  proposed allowed denied expired stale executing succeeded failed unknown reconciled_succeeded
        reconciled_failed :
      ActionProposalState

unfoldable pub ActionProposalState-discrete : Discrete ActionProposalState
ActionProposalState-discrete = hlevel

instance abbrev pub action_proposal_eq : Eq ActionProposalState
action_proposal_eq = enum_eq ActionProposalState-discrete

unfoldable pub action_proposal_transitions : ActionProposalState → List ActionProposalState
action_proposal_transitions proposed = allowed ∷ denied ∷ expired ∷ stale ∷ []
action_proposal_transitions allowed = executing ∷ []
action_proposal_transitions denied = []
action_proposal_transitions expired = []
action_proposal_transitions stale = []
action_proposal_transitions executing = succeeded ∷ failed ∷ unknown ∷ []
action_proposal_transitions succeeded = []
action_proposal_transitions failed = []
action_proposal_transitions unknown = reconciled_succeeded ∷ reconciled_failed ∷ []
action_proposal_transitions reconciled_succeeded = []
action_proposal_transitions reconciled_failed = []

unfoldable pub can_transition_action_proposal : ActionProposalState → ActionProposalState → Bool
unfolding action_proposal_transitions ActionProposalState-discrete
can_transition_action_proposal from to = includes (action_proposal_transitions from) to
