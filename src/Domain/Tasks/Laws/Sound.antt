-- ===== src/Domain/Tasks/Laws/Sound.antt =====
-- The live grants behind an authorisation of packages/domain/src/tasks/grants.ts.
use mathlib.Core.Path.{subst}
use forge_room.Base.{
  String, Bool, true, Option, none, some, ◌≡◌, ◌≢◌, ◌⊎◌, inl, inr, List, [], ◌∷◌, refl, arith, any,
  filter, includes, ◌==◌, string_eq, eq_iff, Bool-cases, ◌&&◌, not,
}
use mathlib.Core.List.{Memᴰ}
use forge_room.Base.ListLaws.{any-filter, any_witness}
use forge_room.Domain.Transitions.Task.{TaskStatus, task_eq, can_transition_task}
use forge_room.Domain.Tasks.{
  TaskGrantRow, authorized, is_active, active_grants_for_channel, has_operation, has_field,
  has_transition, check_fields, check_status, check_changes, authorize_coworker_task_create,
  authorize_coworker_task_update, TaskUpdateCommand, changed_task_update_fields, task_create_fields,
}

-- A grant to the coworker in the channel that was not revoked and covers the task asked for.
pub record IsLive (coworker channel : String) (asked : Option String) (grant : TaskGrantRow)
    : Type 0 where
  pub unrevoked : grant.revoked_at ≡ none
  pub is_coworker : grant.subject_type ≡ "coworker"
  pub to_coworker : grant.subject_id ≡ coworker
  pub in_channel : grant.channel_id ≡ channel
  pub covers : (grant.task_id ≡ none) ⊎ (grant.task_id ≡ asked)

active-IsLive :
    (coworker channel : String) (asked : Option String) (grant : TaskGrantRow)
    → is_active coworker channel asked grant ≡ true
    → IsLive coworker channel asked grant
unfolding is_active
active-IsLive coworker channel none grant h = ground (
  arith,
  eq_iff grant.subject_type "coworker",
  eq_iff grant.subject_id coworker,
  eq_iff grant.channel_id channel,
)
active-IsLive coworker channel (some task) grant h = covered grant.task_id refl
  where
    covered : (t : Option String) → grant.task_id ≡ t → IsLive coworker channel (some task) grant
    covered none e = ground (
      arith,
      eq_iff grant.subject_type "coworker",
      eq_iff grant.subject_id coworker,
      eq_iff grant.channel_id channel,
    )
    covered (some t) e = ground (
      arith,
      eq_iff grant.subject_type "coworker",
      eq_iff grant.subject_id coworker,
      eq_iff grant.channel_id channel,
      eq_iff t task,
    )

module _ (grants : List TaskGrantRow) (coworker channel : String) (asked : Option String) where
  -- Some live grant among `grants` has the property.
  abbrev pub GrantedBy : (TaskGrantRow → Bool) → Type 0
  GrantedBy p = (g : TaskGrantRow) × Memᴰ g grants × IsLive coworker channel asked g × (p g ≡ true)

  granted_by :
      (p : TaskGrantRow → Bool)
      → any p (active_grants_for_channel grants coworker channel asked) ≡ true
      → GrantedBy p
  unfolding active_grants_for_channel
  granted_by p h =
      let (g, m, both) =
        any_witness (λ g. is_active coworker channel asked g && p g) grants
          (rw (any-filter (is_active coworker channel asked) p grants) at h) in
      (g, m, active-IsLive coworker channel asked g (ground arith), ground arith)

  abbrev pub Operation : String → Type 0
  Operation op = GrantedBy (λ g. includes g.allowed_operations op)

  abbrev pub Field : String → Type 0
  Field field = GrantedBy (λ g. includes g.allowed_fields field)

  abbrev pub Move : TaskStatus → TaskStatus → Type 0
  Move from to =
      GrantedBy (λ g. any (λ t. t.source == from && t.target == to) g.allowed_transitions)

  Field-granted :
      (field : String)
      → has_field (active_grants_for_channel grants coworker channel asked) field ≡ true
      → Field field
  unfolding has_field
  Field-granted field h = granted_by (λ g. includes g.allowed_fields field) h

  Operation-granted :
      (op : String)
      → has_operation (active_grants_for_channel grants coworker channel asked) op ≡ true
      → Operation op
  unfolding has_operation
  Operation-granted op h = granted_by (λ g. includes g.allowed_operations op) h

  Move-granted :
      (from to : TaskStatus)
      → has_transition (active_grants_for_channel grants coworker channel asked) from to ≡ true
      → Move from to
  unfolding has_transition
  Move-granted from to h =
      granted_by (λ g. any (λ t. t.source == from && t.target == to) g.allowed_transitions) h

check_fields-cons :
    (active : List TaskGrantRow) (field : String) (fields : List String)
    → check_fields active (field ∷ fields) ≡ authorized
    → (has_field active field ≡ true) × (check_fields active fields ≡ authorized)
unfolding check_fields
check_fields-cons active field fields h = ground arith

checked_field :
    (active : List TaskGrantRow) (fields : List String) (field : String)
    → check_fields active fields ≡ authorized
    → includes fields field ≡ true
    → has_field active field ≡ true
checked_field active [] field h m = absurd (cc)
checked_field active (f ∷ fields) field h m = elim (Bool-cases (f == field)) [
  | inl same ↦
      subst (λ x. has_field active x ≡ true) ((eq_iff f field).0 same)
        (check_fields-cons active f fields h).0
  | inr other ↦
      checked_field active fields field (check_fields-cons active f fields h).1 (ground arith)
]

check_status_ok :
    (active : List TaskGrantRow) (current to : TaskStatus)
    → check_status active current (some to) ≡ authorized
    → (has_operation active "update_status" ≡ true)
      × (has_field active "status" ≡ true)
      × (can_transition_task current to ≡ true)
      × (has_transition active current to ≡ true)
unfolding check_status
check_status_ok active current to h = ground arith

check_changes_ok :
    (active : List TaskGrantRow) (fields : List String) (field : String)
    → check_changes active fields ≡ authorized
    → includes fields field ≡ true
    → (has_operation active "update_fields" ≡ true) × (check_fields active fields ≡ authorized)
unfolding check_changes
check_changes_ok active [] field h m = absurd (cc)
check_changes_ok active (f ∷ fields) field h m = ground arith

update_checks :
    (grants : List TaskGrantRow) (coworker channel task : String) (current : TaskStatus)
    (command : TaskUpdateCommand)
    → authorize_coworker_task_update grants coworker channel task current command ≡ authorized
    → let active = active_grants_for_channel grants coworker channel (some task) in
      (check_status active current command.status ≡ authorized)
      × (check_changes active
            (filter (λ field. not (field == "status")) (changed_task_update_fields command))
          ≡ authorized)
unfolding authorize_coworker_task_update
update_checks grants coworker channel task current command h = ground arith

includes-filter :
    (p : String → Bool) (xs : List String) (a : String)
    → includes xs a ≡ true
    → p a ≡ true
    → includes (filter p xs) a ≡ true
includes-filter p [] a m h = cc
includes-filter p (x ∷ xs) a m h = ground (arith, includes-filter p xs a, eq_iff x a)

-- An authorised update that sets the status makes a move that the task table accepts, and live
-- grants allow the operation, the field `status` and that very move.
pub authorized_status_granted :
    (grants : List TaskGrantRow) (coworker channel task : String) (current to : TaskStatus)
    (command : TaskUpdateCommand)
    → authorize_coworker_task_update grants coworker channel task current command ≡ authorized
    → command.status ≡ some to
    → (can_transition_task current to ≡ true)
      × Operation grants coworker channel (some task) "update_status"
      × Field grants coworker channel (some task) "status"
      × Move grants coworker channel (some task) current to
authorized_status_granted grants coworker channel task current to command h e =
    let (status_ok, changes_ok) = update_checks grants coworker channel task current command h in
    let (op, field, move, granted) = check_status_ok _ current to (rw e at status_ok) in
    (
      move,
      Operation-granted grants coworker channel (some task) _ op,
      Field-granted grants coworker channel (some task) _ field,
      Move-granted grants coworker channel (some task) current to granted,
    )

-- Every other field that an authorised update changes is allowed by a live grant, and so is the
-- operation on fields.
pub authorized_change_granted :
    (grants : List TaskGrantRow) (coworker channel task : String) (current : TaskStatus)
    (command : TaskUpdateCommand) (field : String)
    → authorize_coworker_task_update grants coworker channel task current command ≡ authorized
    → includes (changed_task_update_fields command) field ≡ true
    → field ≢ "status"
    → Operation grants coworker channel (some task) "update_fields"
      × Field grants coworker channel (some task) field
authorized_change_granted grants coworker channel task current command field h m other =
    let (status_ok, changes_ok) = update_checks grants coworker channel task current command h in
    let m' =
      includes-filter (λ f. not (f == "status")) _ field m
        (ground (arith, eq_iff field "status")) in
    let (op, rest) = check_changes_ok _ _ field changes_ok m' in
    (
      Operation-granted grants coworker channel (some task) _ op,
      Field-granted grants coworker channel (some task) field (checked_field _ _ field rest m'),
    )

create_checks :
    (grants : List TaskGrantRow) (coworker channel : String)
    → authorize_coworker_task_create grants coworker channel ≡ authorized
    → let active = active_grants_for_channel grants coworker channel none in
      (has_operation active "create" ≡ true) × (check_fields active task_create_fields ≡ authorized)
unfolding authorize_coworker_task_create
create_checks grants coworker channel h = ground arith

-- An authorised creation rests on live channel-wide grants for the operation and for each field
-- that a new task sets.
pub authorized_create_granted :
    (grants : List TaskGrantRow) (coworker channel field : String)
    → authorize_coworker_task_create grants coworker channel ≡ authorized
    → includes task_create_fields field ≡ true
    → Operation grants coworker channel none "create" × Field grants coworker channel none field
authorized_create_granted grants coworker channel field h m =
    let (op, fields) = create_checks grants coworker channel h in
    (
      Operation-granted grants coworker channel none _ op,
      Field-granted grants coworker channel none field (checked_field _ _ field fields m),
    )
