-- ===== src/Domain/Transitions/Run.antt =====
-- packages/domain/src/transitions.ts: the lifecycle of a run.
use forge_room.Base.{Bool, List, [], ◌∷◌, includes, Eq, enum_eq}

pub data RunLifecycle : Type 0 where
  queued active completed partial failed cancelled : RunLifecycle

unfoldable pub RunLifecycle-discrete : Discrete RunLifecycle
RunLifecycle-discrete = hlevel

instance abbrev pub run_lifecycle_eq : Eq RunLifecycle
run_lifecycle_eq = enum_eq RunLifecycle-discrete

unfoldable pub run_lifecycle_transitions : RunLifecycle → List RunLifecycle
run_lifecycle_transitions queued = active ∷ []
run_lifecycle_transitions active = completed ∷ partial ∷ failed ∷ cancelled ∷ []
run_lifecycle_transitions completed = []
run_lifecycle_transitions partial = []
run_lifecycle_transitions failed = []
run_lifecycle_transitions cancelled = []

unfoldable pub can_transition_run_lifecycle : RunLifecycle → RunLifecycle → Bool
unfolding run_lifecycle_transitions RunLifecycle-discrete
can_transition_run_lifecycle from to = includes (run_lifecycle_transitions from) to
