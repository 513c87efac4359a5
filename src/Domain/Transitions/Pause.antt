-- ===== src/Domain/Transitions/Pause.antt =====
-- packages/domain/src/transitions.ts: the states of a pause group.
use forge_room.Base.{Bool, List, [], ◌∷◌, includes, Eq, enum_eq}

pub data PauseGroupState : Type 0 where
  collecting ready resuming resumed stale expired cancelled uncertain : PauseGroupState

unfoldable pub PauseGroupState-discrete : Discrete PauseGroupState
PauseGroupState-discrete = hlevel

instance abbrev pub pause_group_eq : Eq PauseGroupState
pause_group_eq = enum_eq PauseGroupState-discrete

unfoldable pub pause_group_transitions : PauseGroupState → List PauseGroupState
pause_group_transitions collecting = ready ∷ stale ∷ expired ∷ cancelled ∷ []
pause_group_transitions ready = resuming ∷ stale ∷ expired ∷ cancelled ∷ []
pause_group_transitions resuming = resumed ∷ uncertain ∷ []
pause_group_transitions resumed = []
pause_group_transitions stale = []
pause_group_transitions expired = []
pause_group_transitions cancelled = []
pause_group_transitions uncertain = []

unfoldable pub can_transition_pause_group : PauseGroupState → PauseGroupState → Bool
unfolding pause_group_transitions PauseGroupState-discrete
can_transition_pause_group from to = includes (pause_group_transitions from) to
