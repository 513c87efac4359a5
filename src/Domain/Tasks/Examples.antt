-- ===== src/Domain/Tasks/Examples.antt =====
-- Two grants of a channel, and commands against them.
use forge_room.Base.{
  Bool, true, false, String, [], ◌∷◌, none, some, ◌≡◌, ◌↔◌, refl, includes, string_eq, arith,
  eq_iff,
}
use forge_room.Domain.Transitions.Task.{todo, in_progress, can_transition_task}
use forge_room.Domain.Tasks.{
  TaskGrantRow, TaskUpdateCommand, authorized, authorize_coworker_task_create,
  authorize_coworker_task_update, changed_task_update_fields, task_create_fields,
}
use forge_room.Domain.Tasks.Laws.Sound.{
  Operation, Field, Move, authorized_status_granted, authorized_change_granted,
}
use forge_room.Domain.Tasks.Laws.Materialized.{material_row, material_moves_iff}

-- Everything, in channel `c`, for coworker `w`.
abbrev full_grant : TaskGrantRow
full_grant = record {
  task_id = none;
  channel_id = "c";
  subject_type = "coworker";
  subject_id = "w";
  allowed_operations = "create" ∷ "update_fields" ∷ "update_status" ∷ [];
  allowed_fields = "status" ∷ task_create_fields;
  allowed_transitions = record { source = todo; target = in_progress } ∷ [];
  revoked_at = none;
}

-- The same, of another coworker.
abbrev other_grant : TaskGrantRow
other_grant = record full_grant { subject_id = "v" }

-- Sets the title and starts the task.
abbrev start_task : TaskUpdateCommand
start_task = record { keys = "schemaVersion" ∷ "title" ∷ "status" ∷ []; status = some in_progress }

start_allowed :
    authorize_coworker_task_update (full_grant ∷ []) "w" "c" "t" todo start_task ≡ authorized
unfolding authorize_coworker_task_update
start_allowed = refl

create_allowed : authorize_coworker_task_create (full_grant ∷ []) "w" "c" ≡ authorized
unfolding authorize_coworker_task_create
create_allowed = refl

authorized_status_granted_example :
    (can_transition_task todo in_progress ≡ true)
    × Operation (full_grant ∷ []) "w" "c" (some "t") "update_status"
    × Field (full_grant ∷ []) "w" "c" (some "t") "status"
    × Move (full_grant ∷ []) "w" "c" (some "t") todo in_progress
authorized_status_granted_example =
    authorized_status_granted (full_grant ∷ []) "w" "c" "t" todo in_progress start_task
      start_allowed refl

authorized_change_granted_example :
    Operation (full_grant ∷ []) "w" "c" (some "t") "update_fields"
    × Field (full_grant ∷ []) "w" "c" (some "t") "title"
unfolding changed_task_update_fields
authorized_change_granted_example =
    authorized_change_granted (full_grant ∷ []) "w" "c" "t" todo start_task "title" start_allowed
      refl (λ e. ground (arith, eq_iff "title" "status"))

-- No text before another: the order of the fields does not matter here.
abbrev unordered : String → String → Bool
unordered a b = false

-- Starts the task and changes nothing else.
abbrev only_start : TaskUpdateCommand
only_start = record { keys = "expected_revision" ∷ "status" ∷ []; status = some in_progress }

material_moves_iff_example :
    (authorize_coworker_task_update
        (material_row unordered ("create" ∷ "update_status" ∷ []) "w" "c" ∷ [])
        "w"
        "c"
        "t"
        todo
        only_start
      ≡ authorized)
    ↔ ((includes {A = String} ("create" ∷ "update_status" ∷ []) "update_status" ≡ true)
        × (can_transition_task todo in_progress ≡ true))
unfolding changed_task_update_fields
material_moves_iff_example =
    material_moves_iff unordered ("create" ∷ "update_status" ∷ []) "w" "c" "t" todo in_progress
      only_start refl refl
