-- ===== src/Domain/Tasks/Laws/Materialized.antt =====
-- Grants materialised from operations, for packages/domain/src/tasks/grants.ts.
use forge_room.Base.{
  String, Bool, true, Option, none, some, ◌≡◌, ◌↔◌, List, [], ◌∷◌, refl, arith, includes, any, ◌||◌,
  ◌==◌, string_eq, eq_iff, if◌then◌else◌, ◌&&◌,
}
use forge_room.Base.ListLaws.{includes-sort, includes-unique, includes-append}
use forge_room.Domain.Transitions.Task.{TaskStatus, task_eq, can_transition_task}
use forge_room.Domain.Tasks.{
  TaskGrantRow, authorized, active_grants_for_channel, has_operation, has_field, has_transition,
  check_fields, check_status, check_changes, authorize_coworker_task_create,
  authorize_coworker_task_update, TaskUpdateCommand, changed_task_update_fields, task_create_fields,
  task_update_field_names, materialize_task_grant_from_operations, all_task_transition_pairs,
}

module _ (before : String → String → Bool) (operations : List String) where
  -- The members of the materialised lists, without the sets and the sort.
  material_operation :
      (op : String)
      → includes (materialize_task_grant_from_operations before operations).allowed_operations op
        ≡ includes operations op
  unfolding materialize_task_grant_from_operations
  material_operation op = includes-unique operations op

  material_field :
      (field : String)
      → includes (materialize_task_grant_from_operations before operations).allowed_fields field ≡ (
          includes (if includes operations "create" then task_create_fields else []) field
          || (includes
                (if includes operations "update_fields" then task_update_field_names else [])
                field
              || includes
                  (if includes operations "update_status" then "status" ∷ [] else [])
                  field))
  unfolding materialize_task_grant_from_operations
  material_field field = simp (includes-sort before, includes-unique, includes-append)

-- The pairs that are materialised for `update_status` are the moves of the task table.
pairs_are_table :
    (from to : TaskStatus)
    → any (λ t. t.source == from && t.target == to) all_task_transition_pairs
      ≡ can_transition_task from to
unfolding all_task_transition_pairs can_transition_task
pairs_are_table from to = ground arith

-- If every field is granted, the loop over the fields authorises.
check_fields_all :
    (active : List TaskGrantRow) (fields : List String)
    → ((field : String) → includes fields field ≡ true → has_field active field ≡ true)
    → check_fields active fields ≡ authorized
unfolding check_fields
check_fields_all active [] every = refl
check_fields_all active (f ∷ fields) every =
    let here = every f (ground (arith, eq_iff f f)) in
    let rest = check_fields_all active fields (λ g m. every g (ground arith)) in ground arith

-- A channel-wide row, not revoked, with the material of the operations.
abbrev pub material_row :
    (before : String → String → Bool) → List String → (coworker channel : String) → TaskGrantRow
material_row before operations coworker channel =
    let material = materialize_task_grant_from_operations before operations in
    record {
      task_id = none;
      channel_id = channel;
      subject_type = "coworker";
      subject_id = coworker;
      allowed_operations = material.allowed_operations;
      allowed_fields = material.allowed_fields;
      allowed_transitions = material.allowed_transitions;
      revoked_at = none;
    }

module _ (before : String → String → Bool) (operations : List String)
    (coworker channel : String) where
  abbrev row : TaskGrantRow
  row = material_row before operations coworker channel

  row_active :
      (asked : Option String)
      → active_grants_for_channel (row ∷ []) coworker channel asked ≡ row ∷ []
  unfolding active_grants_for_channel
  row_active none = ground (arith, eq_iff coworker coworker, eq_iff channel channel)
  row_active (some task) = ground (arith, eq_iff coworker coworker, eq_iff channel channel)

  row_operation : (op : String) → has_operation (row ∷ []) op ≡ includes operations op
  unfolding has_operation
  row_operation op = ground (arith, material_operation before operations op)

  row_field :
      (field : String)
      → has_field (row ∷ []) field ≡ (
          includes (if includes operations "create" then task_create_fields else []) field
          || (includes
                (if includes operations "update_fields" then task_update_field_names else [])
                field
              || includes
                  (if includes operations "update_status" then "status" ∷ [] else [])
                  field))
  unfolding has_field
  row_field field = ground (arith, material_field before operations field)

  row_transition :
      (from to : TaskStatus)
      → includes operations "update_status" ≡ true
      → has_transition (row ∷ []) from to ≡ can_transition_task from to
  unfolding has_transition materialize_task_grant_from_operations
  row_transition from to h = simp (includes-unique, h, pairs_are_table) (ground arith)

  -- A channel-wide grant that was materialised from operations authorises the creation of a task
  -- exactly when `create` is among them.
  pub material_creates_iff :
      (authorize_coworker_task_create (row ∷ []) coworker channel ≡ authorized)
      ↔ (includes operations "create" ≡ true)
  unfolding authorize_coworker_task_create
  material_creates_iff =
      let every : includes operations "create" ≡ true
          → check_fields (row ∷ []) task_create_fields ≡ authorized =
        λ h.
          check_fields_all (row ∷ []) task_create_fields
            λ f m. rw (row_field f, h) (ground arith) in
      let op = row_operation "create" in
      rw (row_active none) (λ h. ground arith, λ h. ground (arith, every h))

  -- For a command that changes the status alone, such a grant authorises the update exactly when
  -- `update_status` is among the operations and the task table accepts the move.
  pub material_moves_iff :
      (task : String) (current to : TaskStatus) (command : TaskUpdateCommand)
      → command.status ≡ some to
      → changed_task_update_fields command ≡ "status" ∷ []
      → (authorize_coworker_task_update (row ∷ []) coworker channel task current command
          ≡ authorized)
        ↔ ((includes operations "update_status" ≡ true) × (can_transition_task current to ≡ true))
  unfolding authorize_coworker_task_update check_status check_changes
  material_moves_iff task current to command st ch =
      let op = row_operation "update_status" in
      let move = row_transition current to in
      let field = row_field "status" in
      rw (row_active (some task), st, ch) (λ h. ground arith, λ h. ground (arith, move h.0))
