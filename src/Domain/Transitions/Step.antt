-- ===== src/Domain/Transitions/Step.antt =====
-- packages/domain/src/transitions.ts: the states of a run step.
use forge_room.Base.{Bool, List, [], ◌∷◌, includes, Eq, enum_eq}

pub data RunStepState : Type 0 where
  queued acquiring_session running awaiting_input awaiting_approval blocked_connection cancelling
        cancelled completed failed unknown :
      RunStepState

unfoldable pub RunStepState-discrete : Discrete RunStepState
RunStepState-discrete = hlevel

instance abbrev pub run_step_eq : Eq RunStepState
run_step_eq = enum_eq RunStepState-discrete

unfoldable pub run_step_transitions : RunStepState → List RunStepState
run_step_transitions queued = acquiring_session ∷ []
run_step_transitions acquiring_session = running ∷ []
run_step_transitions running =
    awaiting_input ∷ awaiting_approval ∷ blocked_connection ∷ cancelling ∷ completed ∷ failed
    ∷ cancelled ∷ unknown ∷ []
run_step_transitions awaiting_input = running ∷ cancelling ∷ failed ∷ cancelled ∷ []
run_step_transitions awaiting_approval = running ∷ cancelling ∷ failed ∷ cancelled ∷ []
run_step_transitions blocked_connection = queued ∷ cancelling ∷ failed ∷ cancelled ∷ []
run_step_transitions cancelling = cancelled ∷ completed ∷ failed ∷ unknown ∷ []
run_step_transitions cancelled = []
run_step_transitions completed = []
run_step_transitions failed = []
run_step_transitions unknown = []

unfoldable pub can_transition_run_step : RunStepState → RunStepState → Bool
unfolding run_step_transitions RunStepState-discrete
can_transition_run_step from to = includes (run_step_transitions from) to
