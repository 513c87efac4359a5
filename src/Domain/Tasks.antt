-- ===== src/Domain/Tasks.antt =====
-- packages/domain/src/tasks/grants.ts: the task grants of coworkers. A field's name and an
-- operation are texts, as in the rows; the texts of the messages are left out.
pub mod Laws
mod Examples
use forge_room.Base.{
  ℕ, String, Bool, true, false, ◌&&◌, ◌||◌, not, Option, none, some, if◌then◌else◌, ◌==◌, string_eq,
  List, [], ◌∷◌, ◌++◌, filter, any, includes, length, map, flat_map, unique, sort,
}
use forge_room.Domain.Transitions.Task.{
  TaskStatus, todo, in_progress, blocked, in_review, done, cancelled, task_eq, task_transitions,
  can_transition_task,
}

pub record Transition : Type 0 where
  pub source : TaskStatus
  pub target : TaskStatus

abbrev pub task_create_fields : List String
task_create_fields =
    "title" ∷ "description" ∷ "status" ∷ "assignee_type" ∷ "assignee_id" ∷ "source_message_id"
    ∷ "source_run_id" ∷ "due_at" ∷ []

abbrev pub task_update_field_names : List String
task_update_field_names = "title" ∷ "description" ∷ "due_at" ∷ "assignee_type" ∷ "assignee_id" ∷ []

pub record TaskGrantRow : Type 0 where
  pub task_id : Option String
  pub channel_id : String
  pub subject_type : String
  pub subject_id : String
  pub allowed_operations : List String
  pub allowed_fields : List String
  pub allowed_transitions : List Transition
  pub revoked_at : Option String

pub data TaskGrantDenial : Type 0 where
  missing_grant : TaskGrantDenial
  operation_not_granted : (operation : String) → TaskGrantDenial
  field_not_granted : (field : String) → TaskGrantDenial
  transition_not_granted : (from to : TaskStatus) → TaskGrantDenial

pub data Authorization : Type 0 where
  authorized : Authorization
  denied : TaskGrantDenial → Authorization

-- `grant.taskId === null`, or equal to the task that is asked for.
abbrev covers_task : Option String → Option String → Bool
covers_task none none = true
covers_task none (some t) = false
covers_task (some asked) none = true
covers_task (some asked) (some t) = t == asked

abbrev is_none : Option String → Bool
is_none none = true
is_none (some _) = false

-- The test of `activeGrantsForChannel`; `asked` is the optional `taskId` of its input.
unfoldable pub is_active : String → String → Option String → TaskGrantRow → Bool
is_active coworker channel asked grant =
    is_none grant.revoked_at
    && (grant.subject_type == "coworker" && grant.subject_id == coworker)
    && grant.channel_id == channel
    && covers_task asked grant.task_id

unfoldable pub active_grants_for_channel :
    List TaskGrantRow → String → String → Option String → List TaskGrantRow
unfolding is_active
active_grants_for_channel grants coworker channel asked =
    filter (is_active coworker channel asked) grants

unfoldable pub has_operation : List TaskGrantRow → String → Bool
has_operation grants operation = any (λ grant. includes grant.allowed_operations operation) grants

unfoldable pub has_field : List TaskGrantRow → String → Bool
has_field grants field = any (λ grant. includes grant.allowed_fields field) grants

unfoldable pub has_transition : List TaskGrantRow → TaskStatus → TaskStatus → Bool
has_transition grants from to =
    any (λ grant. any (λ t. t.source == from && t.target == to) grant.allowed_transitions) grants

-- The loop over the fields: the first that no grant allows is named.
unfoldable pub check_fields : List TaskGrantRow → List String → Authorization
unfolding has_field
check_fields active [] = authorized
check_fields active (field ∷ fields) =
    let rest = check_fields active fields in
    if not (has_field active field) then denied (field_not_granted field) else rest

abbrev is_empty {ℓ} : {A : Type ℓ} → List A → Bool
is_empty [] = true
is_empty (_ ∷ _) = false

unfoldable pub authorize_coworker_task_create :
    List TaskGrantRow → (coworker channel : String) → Authorization
unfolding active_grants_for_channel has_operation check_fields
authorize_coworker_task_create grants coworker channel =
    let active = active_grants_for_channel grants coworker channel none in
    if is_empty active
    then denied missing_grant
    else if not (has_operation active "create")
    then denied (operation_not_granted "create")
    else check_fields active task_create_fields

-- A command: its own keys in their order, and the new status if it sets one.
pub record TaskUpdateCommand : Type 0 where
  pub keys : List String
  pub status : Option TaskStatus

unfoldable pub changed_task_update_fields : TaskUpdateCommand → List String
changed_task_update_fields command =
    filter
      (λ key.
        not (key == "schemaVersion")
        && not (key == "expected_revision")
        && not (key == "idempotency_key"))
      command.keys

-- The guards on a change of the status.
unfoldable pub check_status : List TaskGrantRow → TaskStatus → Option TaskStatus → Authorization
unfolding has_operation has_field has_transition can_transition_task
check_status active current none = authorized
check_status active current (some to) =
    if not (has_operation active "update_status")
    then denied (operation_not_granted "update_status")
    else if not (has_field active "status")
    then denied (field_not_granted "status")
    else if not (can_transition_task current to)
    then denied (transition_not_granted current to)
    else if not (has_transition active current to)
    then denied (transition_not_granted current to)
    else authorized

-- The guards on the other fields.
unfoldable pub check_changes : List TaskGrantRow → List String → Authorization
unfolding has_operation check_fields
check_changes active [] = authorized
check_changes active (field ∷ fields) =
    if not (has_operation active "update_fields")
    then denied (operation_not_granted "update_fields")
    else check_fields active (field ∷ fields)

-- A denial returns at once.
infixl 30 ◌then_check◌
abbrev pub ◌then_check◌ : Authorization → Authorization → Authorization
authorized then_check next = next
denied error then_check next = denied error

unfoldable pub authorize_coworker_task_update :
    List TaskGrantRow
    → (coworker channel task : String) → TaskStatus
    → TaskUpdateCommand
    → Authorization
unfolding active_grants_for_channel changed_task_update_fields check_status check_changes
authorize_coworker_task_update grants coworker channel task current command =
    let active = active_grants_for_channel grants coworker channel (some task) in
    let field_changes =
      filter (λ field. not (field == "status")) (changed_task_update_fields command) in
    if is_empty active
    then denied missing_grant
    else check_status active current command.status then_check check_changes active field_changes

-- `Object.entries(TASK_TRANSITIONS)`, flattened.
abbrev task_statuses : List TaskStatus
task_statuses = todo ∷ in_progress ∷ blocked ∷ in_review ∷ done ∷ cancelled ∷ []

unfoldable pub all_task_transition_pairs : List Transition
unfolding task_transitions
all_task_transition_pairs =
    flat_map (λ from. map (λ to. record { source = from; target = to }) (task_transitions from))
      task_statuses

pub record TaskGrantMaterial : Type 0 where
  pub allowed_operations : List String
  pub allowed_fields : List String
  pub allowed_transitions : List Transition

-- `before` is the order of `localeCompare`.
unfoldable pub materialize_task_grant_from_operations :
    (before : String → String → Bool) → List String → TaskGrantMaterial
unfolding all_task_transition_pairs
materialize_task_grant_from_operations before operations =
    let allowed = unique operations in
    let created = if includes allowed "create" then task_create_fields else [] in
    let updated = if includes allowed "update_fields" then task_update_field_names else [] in
    let status = if includes allowed "update_status" then "status" ∷ [] else [] in
    record {
      allowed_operations = allowed;
      allowed_fields = sort before (unique (created ++ (updated ++ status)));
      allowed_transitions =
          if includes allowed "update_status" then all_task_transition_pairs else [];
    }
