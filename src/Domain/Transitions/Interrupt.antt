-- ===== src/Domain/Transitions/Interrupt.antt =====
-- packages/domain/src/transitions.ts: the states of a component interrupt.
use forge_room.Base.{Bool, List, [], ◌∷◌, includes, Eq, enum_eq, Result, ok, err, if◌then◌else◌}

pub data UiComponentInterruptState : Type 0 where
  waiting resolved continued stale : UiComponentInterruptState

unfoldable pub UiComponentInterruptState-discrete : Discrete UiComponentInterruptState
UiComponentInterruptState-discrete = hlevel

instance abbrev pub ui_component_interrupt_eq : Eq UiComponentInterruptState
ui_component_interrupt_eq = enum_eq UiComponentInterruptState-discrete

unfoldable pub ui_component_interrupt_transitions :
    UiComponentInterruptState → List UiComponentInterruptState
ui_component_interrupt_transitions waiting = resolved ∷ stale ∷ []
ui_component_interrupt_transitions resolved = continued ∷ []
ui_component_interrupt_transitions continued = []
ui_component_interrupt_transitions stale = []

unfoldable pub can_transition_ui_component_interrupt :
    UiComponentInterruptState → UiComponentInterruptState → Bool
unfolding ui_component_interrupt_transitions UiComponentInterruptState-discrete
can_transition_ui_component_interrupt from to =
    includes (ui_component_interrupt_transitions from) to

-- The error that names the refused move.
pub record InvalidInterruptMove : Type 0 where
  pub refused_from : UiComponentInterruptState
  pub refused_to : UiComponentInterruptState

unfoldable pub transition_ui_component_interrupt :
    UiComponentInterruptState
    → UiComponentInterruptState
    → Result InvalidInterruptMove UiComponentInterruptState
unfolding can_transition_ui_component_interrupt
transition_ui_component_interrupt from to =
    if can_transition_ui_component_interrupt from to
    then ok to
    else err (record { refused_from = from; refused_to = to })
