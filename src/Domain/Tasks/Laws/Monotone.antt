-- ===== src/Domain/Tasks/Laws/Monotone.antt =====
-- Grants behind other grants, for packages/domain/src/tasks/grants.ts.
use forge_room.Base.{
  String, true, false, Option, none, some, ◌≡◌, List, [], ◌∷◌, ◌++◌, arith, filter, not, ◌==◌,
  string_eq,
}
use forge_room.Base.ListLaws.{filter-append, any-append}
use forge_room.Domain.Transitions.Task.{TaskStatus}
use forge_room.Domain.Tasks.{
  TaskGrantRow, authorized, active_grants_for_channel, has_operation, has_field, has_transition,
  check_fields, check_status, check_changes, authorize_coworker_task_create,
  authorize_coworker_task_update, TaskUpdateCommand, changed_task_update_fields, is_empty,
  task_create_fields,
}

module _ (xs ys : List TaskGrantRow) where
  operation_more : (op : String) → has_operation xs op ≡ true → has_operation (xs ++ ys) op ≡ true
  unfolding has_operation
  operation_more op h = rw any-append (rw h)

  field_more : (field : String) → has_field xs field ≡ true → has_field (xs ++ ys) field ≡ true
  unfolding has_field
  field_more field h = rw any-append (rw h)

  move_more :
      (from to : TaskStatus)
      → has_transition xs from to ≡ true
      → has_transition (xs ++ ys) from to ≡ true
  unfolding has_transition
  move_more from to h = rw any-append (rw h)

  fields_more :
      (fields : List String)
      → check_fields xs fields ≡ authorized
      → check_fields (xs ++ ys) fields ≡ authorized
  unfolding check_fields
  fields_more [] h = h
  fields_more (field ∷ fields) h = ground (arith, field_more field, fields_more fields)

  status_more :
      (current : TaskStatus) (status : Option TaskStatus)
      → check_status xs current status ≡ authorized
      → check_status (xs ++ ys) current status ≡ authorized
  unfolding check_status
  status_more current none h = h
  status_more current (some to) h =
      ground (arith, operation_more "update_status", field_more "status", move_more current to)

  changes_more :
      (fields : List String)
      → check_changes xs fields ≡ authorized
      → check_changes (xs ++ ys) fields ≡ authorized
  unfolding check_changes
  changes_more [] h = h
  changes_more (field ∷ fields) h =
      ground (arith, operation_more "update_fields", fields_more (field ∷ fields))

  nonempty_more : is_empty xs ≡ false → is_empty (xs ++ ys) ≡ false
  nonempty_more h = nonempty xs h
    where
      nonempty : (zs : List TaskGrantRow) → is_empty zs ≡ false → is_empty (zs ++ ys) ≡ false
      nonempty [] h' = cc
      nonempty (z ∷ zs) h' = h'

active_more :
    (xs ys : List TaskGrantRow) (coworker channel : String) (asked : Option String)
    → active_grants_for_channel (xs ++ ys) coworker channel asked
      ≡ active_grants_for_channel xs coworker channel asked
        ++ active_grants_for_channel ys coworker channel asked
unfolding active_grants_for_channel
active_more xs ys coworker channel asked = filter-append _ xs ys

-- The creation that some grants authorise they still authorise with more grants behind them.
pub more_grants_create :
    (xs ys : List TaskGrantRow) (coworker channel : String)
    → authorize_coworker_task_create xs coworker channel ≡ authorized
    → authorize_coworker_task_create (xs ++ ys) coworker channel ≡ authorized
unfolding authorize_coworker_task_create
more_grants_create xs ys coworker channel h =
    let a = active_grants_for_channel xs coworker channel none in
    let b = active_grants_for_channel ys coworker channel none in
    rw (active_more xs ys coworker channel none) (
      ground
        (arith, nonempty_more a b, operation_more a b "create", fields_more a b task_create_fields))

-- The update that some grants authorise they still authorise with more grants behind them.
pub more_grants_update :
    (xs ys : List TaskGrantRow) (coworker channel task : String) (current : TaskStatus)
    (command : TaskUpdateCommand)
    → authorize_coworker_task_update xs coworker channel task current command ≡ authorized
    → authorize_coworker_task_update (xs ++ ys) coworker channel task current command ≡ authorized
unfolding authorize_coworker_task_update
more_grants_update xs ys coworker channel task current command h =
    let a = active_grants_for_channel xs coworker channel (some task) in
    let b = active_grants_for_channel ys coworker channel (some task) in
    let fields = filter (λ field. not (field == "status")) (changed_task_update_fields command) in
    rw (active_more xs ys coworker channel (some task)) (
      ground
        (arith, nonempty_more a b, status_more a b current command.status, changes_more a b fields))
