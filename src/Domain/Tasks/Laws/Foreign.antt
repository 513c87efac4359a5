-- ===== src/Domain/Tasks/Laws/Foreign.antt =====
-- Grants of others, and revoked ones, for packages/domain/src/tasks/grants.ts.
use forge_room.Base.{
  String, false, Option, none, some, ◌≡◌, ◌≢◌, ◌⊎◌, List, ◌∷◌, ◌++◌, arith, string_eq, eq_iff,
}
use forge_room.Base.ListLaws.{filter-append}
use forge_room.Domain.Transitions.Task.{TaskStatus, task_eq}
use forge_room.Domain.Tasks.{
  TaskGrantRow, is_active, active_grants_for_channel, authorize_coworker_task_create,
  authorize_coworker_task_update, TaskUpdateCommand, is_none,
}

-- The grant gives the coworker nothing in the channel: it was revoked, or it is another's.
abbrev pub IsForeign : String → String → TaskGrantRow → Type 0
IsForeign coworker channel grant =
    (is_none grant.revoked_at ≡ false)
    ⊎ (grant.subject_id ≢ coworker)
    ⊎ (grant.channel_id ≢ channel)

foreign_inactive :
    (coworker channel : String) (asked : Option String) (grant : TaskGrantRow)
    → IsForeign coworker channel grant
    → is_active coworker channel asked grant ≡ false
unfolding is_active
foreign_inactive coworker channel asked grant h =
    ground (arith, eq_iff grant.subject_id coworker, eq_iff grant.channel_id channel)

active_without :
    (coworker channel : String) (asked : Option String) (xs ys : List TaskGrantRow)
    (grant : TaskGrantRow)
    → IsForeign coworker channel grant
    → active_grants_for_channel (xs ++ grant ∷ ys) coworker channel asked
      ≡ active_grants_for_channel (xs ++ ys) coworker channel asked
unfolding active_grants_for_channel
active_without coworker channel asked xs ys grant h =
    simp (filter-append, foreign_inactive coworker channel asked grant h)

-- A grant that was revoked, or that is for another coworker or another channel, changes neither
-- what may be created nor what may be updated, wherever it stands among the grants.
pub foreign_grant_ignored :
    (coworker channel task : String) (xs ys : List TaskGrantRow) (grant : TaskGrantRow)
    (current : TaskStatus) (command : TaskUpdateCommand)
    → IsForeign coworker channel grant
    → (authorize_coworker_task_create (xs ++ grant ∷ ys) coworker channel
        ≡ authorize_coworker_task_create (xs ++ ys) coworker channel)
      × (authorize_coworker_task_update (xs ++ grant ∷ ys) coworker channel task current command
          ≡ authorize_coworker_task_update (xs ++ ys) coworker channel task current command)
foreign_grant_ignored coworker channel task xs ys grant current command h = (
  unfold authorize_coworker_task_create in rw (active_without coworker channel none xs ys grant h),
  unfold authorize_coworker_task_update in
      rw (active_without coworker channel (some task) xs ys grant h),
)
