-- ===== src/AgUi/Delta.antt =====
-- The activity content and deltas of packages/contracts/src/events.ts. `move` and `copy`, which no
-- delta may hold, are left out. What zod checks of single values, `validateOperationValue`, and of
-- several together, `validateActivityPatchInvariants`, is given by `value_allowed` and `coherent`.
pub mod Laws
use forge_room.Base.{
  ℕ, String, Bool, true, false, not, ◌&&◌, ◌||◌, Option, none, some, if◌then◌else◌, List, [], ◌∷◌,
  includes, leb, ◌+◌, ◌==◌, string_eq, nat_eq_instance,
}
use forge_room.Base.Json.{
  Json, Members, object, array, text, natural_number, other_number, boolean, null,
}
use forge_room.AgUi.Patch.{JsonPatchOp, add, remove, replace, test, path_of}

-- The types of activities, with the fields that identify one.
pub data ActivityIdentity : Type 0 where
  coworker_work : (coworker_id logical_thread_id : String) → ActivityIdentity
  task_record : (task_id : String) → ActivityIdentity
  sandbox : (sandbox_id : String) → ActivityIdentity
  artifact : (artifact_id : String) → ActivityIdentity
  pause_group : (pause_group_id : String) → ActivityIdentity
  controlled_ui : (surface_id : String) → ActivityIdentity
  connection : (connection_id : String) → ActivityIdentity
  audit_receipt : (run_id : String) → ActivityIdentity

pub data ActivityType : Type 0 where
  coworker_work_v1 task_record_v1 sandbox_v1 artifact_v1 pause_group_v1 controlled_ui_v1 :
      ActivityType
  connection_v1 audit_receipt_v1 : ActivityType

abbrev pub type_of : ActivityIdentity → ActivityType
type_of (coworker_work c l) = coworker_work_v1
type_of (task_record t) = task_record_v1
type_of (sandbox s) = sandbox_v1
type_of (artifact a) = artifact_v1
type_of (pause_group p) = pause_group_v1
type_of (controlled_ui s) = controlled_ui_v1
type_of (connection c) = connection_v1
type_of (audit_receipt r) = audit_receipt_v1

-- A content that `forgeRoomActivityContentSchema` has accepted.
pub record ActivityContent : Type 0 where
  pub identity : ActivityIdentity
  pub activity_revision : ℕ
  pub fields : Members

abbrev pub document_of : ActivityContent → Json
document_of c = object c.fields

abbrev pub max_safe_integer : ℕ
max_safe_integer = 9007199254740991

-- The number of a revision, if the value is one.
unfoldable pub revision_value : Json → Option ℕ
revision_value (natural_number n) = if leb n max_safe_integer then some n else none
revision_value other = none

abbrev pub last_of : List JsonPatchOp → Option JsonPatchOp
last_of [] = none
last_of (op ∷ []) = some op
last_of (op ∷ next ∷ ops) = last_of (next ∷ ops)

abbrev pub first_of : List JsonPatchOp → Option JsonPatchOp
first_of [] = none
first_of (op ∷ ops) = some op

unfoldable pub tested_revision : (revision_path : String) → Option JsonPatchOp → Option ℕ
tested_revision revision_path (some (test path value)) =
    if path == revision_path then revision_value value else none
tested_revision revision_path (some (add path value)) = none
tested_revision revision_path (some (remove path)) = none
tested_revision revision_path (some (replace path value)) = none
tested_revision revision_path none = none

unfoldable pub replaced_revision : (revision_path : String) → Option JsonPatchOp → Option ℕ
replaced_revision revision_path (some (replace path value)) =
    if path == revision_path then revision_value value else none
replaced_revision revision_path (some (add path value)) = none
replaced_revision revision_path (some (remove path)) = none
replaced_revision revision_path (some (test path value)) = none
replaced_revision revision_path none = none

-- Whether `validateRevisionPatch` adds no issue.
unfoldable pub is_valid_revision_patch :
    List JsonPatchOp → (expected_revision : Option ℕ) → (revision_path : String) → Bool
is_valid_revision_patch patch expected path = elim (tested_revision path (first_of patch)) [
  | none ↦ false
  | some base ↦
      elim expected [ none ↦ true | some revision ↦ base == revision ]
      && elim (replaced_revision path (last_of patch)) [
        | none ↦ false
        | some next ↦ next == base + 1
      ]
]

abbrev pub allowed_patch_fields : ActivityType → List String
allowed_patch_fields coworker_work_v1 = "assignment" ∷ "phase" ∷ []
allowed_patch_fields task_record_v1 = "revision" ∷ "status" ∷ "title" ∷ []
allowed_patch_fields sandbox_v1 = "commandState" ∷ []
allowed_patch_fields artifact_v1 = "revision" ∷ "mimeType" ∷ "title" ∷ []
allowed_patch_fields pause_group_v1 = "state" ∷ "requiredActionCount" ∷ "resolvedActionCount" ∷ []
allowed_patch_fields controlled_ui_v1 =
    "status" ∷ "renderRevision" ∷ "stateRevision" ∷ "textAlternative" ∷ []
allowed_patch_fields connection_v1 = "status" ∷ []
allowed_patch_fields audit_receipt_v1 = "receiptHash" ∷ []

abbrev pub tests_or_replaces : JsonPatchOp → Bool
tests_or_replaces (add path value) = false
tests_or_replaces (remove path) = false
tests_or_replaces (replace path value) = true
tests_or_replaces (test path value) = true

abbrev pub has_two : List JsonPatchOp → Bool
has_two [] = false
has_two (op ∷ []) = false
has_two (op ∷ next ∷ ops) = true

-- What the schema of a delta uses besides its own code.
pub record DeltaChecks : Type 0 where
  pub segments : String → Option (List String)
  pub value_allowed : ActivityType → JsonPatchOp → Bool
  pub coherent : ActivityType → List JsonPatchOp → Bool

module _ (d : DeltaChecks) where
  unfoldable pub is_allowed_activity_path : ActivityType → String → Bool
  is_allowed_activity_path kind path = elim (d.segments path) [
    | none ↦ false
    | some found ↦ elim found [
      | [] ↦ false
      | segment ∷ rest ↦ elim rest [
        | [] ↦ includes (allowed_patch_fields kind) segment
        | _ ∷ _ ↦ false
      ]
    ]
  ]

  unfoldable pub is_valid_inner : ActivityType → JsonPatchOp → Bool
  is_valid_inner kind op =
      not (path_of op == "/activityRevision")
      && (tests_or_replaces op
          && (is_allowed_activity_path kind (path_of op) && d.value_allowed kind op))

  -- The operations before the last.
  unfoldable pub all_valid_inner : ActivityType → List JsonPatchOp → Bool
  all_valid_inner kind [] = true
  all_valid_inner kind (op ∷ []) = true
  all_valid_inner kind (op ∷ next ∷ ops) =
      is_valid_inner kind op && all_valid_inner kind (next ∷ ops)

  abbrev pub all_valid_after_first : ActivityType → List JsonPatchOp → Bool
  all_valid_after_first kind [] = true
  all_valid_after_first kind (op ∷ ops) = all_valid_inner kind ops

  -- Whether `activityDeltaEventSchema` accepts the patch of a delta.
  unfoldable pub is_valid_activity_delta : ActivityType → List JsonPatchOp → Bool
  is_valid_activity_delta kind patch =
      has_two patch
      && (is_valid_revision_patch patch none "/activityRevision"
          && (all_valid_after_first kind patch && d.coherent kind patch))
