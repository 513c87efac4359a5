-- ===== src/Domain/Transitions/Turn.antt =====
-- packages/domain/src/transitions.ts: the states of an agent turn, and the recovery edges.
use forge_room.Base.{Bool, List, [], ◌∷◌, includes, Eq, enum_eq}

pub data AgentTurnState : Type 0 where
  intended acquiring creating streaming required_actions resuming completed failed cancelled
        uncertain :
      AgentTurnState

unfoldable pub AgentTurnState-discrete : Discrete AgentTurnState
AgentTurnState-discrete = hlevel

instance abbrev pub agent_turn_eq : Eq AgentTurnState
agent_turn_eq = enum_eq AgentTurnState-discrete

unfoldable pub agent_turn_transitions : AgentTurnState → List AgentTurnState
agent_turn_transitions intended = acquiring ∷ resuming ∷ []
agent_turn_transitions acquiring = creating ∷ failed ∷ cancelled ∷ uncertain ∷ []
agent_turn_transitions creating = streaming ∷ failed ∷ cancelled ∷ uncertain ∷ []
agent_turn_transitions streaming =
    required_actions ∷ completed ∷ failed ∷ cancelled ∷ uncertain ∷ []
agent_turn_transitions required_actions = []
agent_turn_transitions resuming = streaming ∷ failed ∷ cancelled ∷ uncertain ∷ []
agent_turn_transitions completed = []
agent_turn_transitions failed = []
agent_turn_transitions cancelled = []
agent_turn_transitions uncertain = []

unfoldable pub can_transition_agent_turn : AgentTurnState → AgentTurnState → Bool
unfolding agent_turn_transitions AgentTurnState-discrete
can_transition_agent_turn from to = includes (agent_turn_transitions from) to

-- A state with no key in the partial table has no recovery edge.
unfoldable pub agent_turn_reconciliation_transitions : AgentTurnState → List AgentTurnState
agent_turn_reconciliation_transitions uncertain = streaming ∷ []
agent_turn_reconciliation_transitions _ = []

unfoldable pub can_reconcile_agent_turn : AgentTurnState → AgentTurnState → Bool
unfolding agent_turn_reconciliation_transitions AgentTurnState-discrete
can_reconcile_agent_turn from to = includes (agent_turn_reconciliation_transitions from) to
