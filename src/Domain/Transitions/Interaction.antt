-- ===== src/Domain/Transitions/Interaction.antt =====
-- packages/domain/src/transitions.ts: the states of a UI interaction.
use forge_room.Base.{Bool, List, [], ◌∷◌, includes, Eq, enum_eq, Result, ok, err, if◌then◌else◌}

pub data UiInteractionState : Type 0 where
  prepared token_issued dispatching succeeded failed denied stale : UiInteractionState

unfoldable pub UiInteractionState-discrete : Discrete UiInteractionState
UiInteractionState-discrete = hlevel

instance abbrev pub ui_interaction_eq : Eq UiInteractionState
ui_interaction_eq = enum_eq UiInteractionState-discrete

unfoldable pub ui_interaction_transitions : UiInteractionState → List UiInteractionState
ui_interaction_transitions prepared = token_issued ∷ stale ∷ []
ui_interaction_transitions token_issued = dispatching ∷ succeeded ∷ failed ∷ denied ∷ stale ∷ []
ui_interaction_transitions dispatching = succeeded ∷ failed ∷ denied ∷ stale ∷ []
ui_interaction_transitions succeeded = []
ui_interaction_transitions failed = []
ui_interaction_transitions denied = []
ui_interaction_transitions stale = []

unfoldable pub can_transition_ui_interaction : UiInteractionState → UiInteractionState → Bool
unfolding ui_interaction_transitions UiInteractionState-discrete
can_transition_ui_interaction from to = includes (ui_interaction_transitions from) to

-- The error that names the refused move.
pub record InvalidInteractionMove : Type 0 where
  pub refused_from : UiInteractionState
  pub refused_to : UiInteractionState

unfoldable pub transition_ui_interaction :
    UiInteractionState → UiInteractionState → Result InvalidInteractionMove UiInteractionState
unfolding can_transition_ui_interaction
transition_ui_interaction from to =
    if can_transition_ui_interaction from to
    then ok to
    else err (record { refused_from = from; refused_to = to })
