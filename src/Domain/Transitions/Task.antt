-- ===== src/Domain/Transitions/Task.antt =====
-- packages/domain/src/transitions.ts: the statuses of a task.
use forge_room.Base.{Bool, List, [], ◌∷◌, includes, Eq, enum_eq}

pub data TaskStatus : Type 0 where
  todo in_progress blocked in_review done cancelled : TaskStatus

unfoldable pub TaskStatus-discrete : Discrete TaskStatus
TaskStatus-discrete = hlevel

instance abbrev pub task_eq : Eq TaskStatus
task_eq = enum_eq TaskStatus-discrete

unfoldable pub task_transitions : TaskStatus → List TaskStatus
task_transitions todo = in_progress ∷ blocked ∷ cancelled ∷ []
task_transitions in_progress = blocked ∷ in_review ∷ done ∷ cancelled ∷ []
task_transitions blocked = in_progress ∷ cancelled ∷ []
task_transitions in_review = in_progress ∷ done ∷ cancelled ∷ []
task_transitions done = []
task_transitions cancelled = []

unfoldable pub can_transition_task : TaskStatus → TaskStatus → Bool
unfolding task_transitions TaskStatus-discrete
can_transition_task from to = includes (task_transitions from) to
