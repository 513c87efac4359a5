-- ===== src/AgUi/Activities.antt =====
-- packages/integrations/ag-ui/src/activity-reducer.ts. Of an event, what is left of its parse is
-- held: whether zod accepts its shape. `parse_content` is the schema of the content.
pub mod Laws
mod Examples
use forge_room.Base.{
  ℕ, String, Bool, true, false, not, ◌&&◌, ◌||◌, Option, none, some, if◌then◌else◌, List, [], ◌∷◌,
  ltb, ◌==◌, string_eq, nat_eq_instance,
}
use forge_room.Base.Json.{Json, object, array, text, natural_number, other_number, boolean, null}
use forge_room.AgUi.Patch.{JsonPatchOp, add, remove, replace, test, Texts, apply_json_patch}
use forge_room.AgUi.Lanes.{
  ActorKind, human, coworker, system, native_subagent, same_kind, Envelope, ActivityLaneOwner,
  truthy, same_option, owner_from_envelope, same_owner, put,
}
use forge_room.AgUi.Delta.{
  ActivityIdentity, coworker_work, task_record, sandbox, artifact, pause_group, controlled_ui,
  connection, audit_receipt, ActivityType, type_of, ActivityContent, document_of, first_of,
  DeltaChecks, is_valid_activity_delta,
}

pub record ActivityEntry : Type 0 where
  pub content : ActivityContent
  pub owner : ActivityLaneOwner

pub record ActivityPresentationState : Type 0 where
  pub activities : String → Option ActivityEntry
  pub need_activity_snapshots : String → Bool

abbrev pub initial_activity_presentation_state : ActivityPresentationState
initial_activity_presentation_state = record {
  activities = λ id. none;
  need_activity_snapshots = λ id. false;
}

-- The events; an id that is not a text is `none`. `well_shaped` is whether zod accepts what is
-- not modelled of the event.
pub data AguiEvent : Type 0 where
  activity_snapshot : (message_id : Option String) (well_shaped : Bool) (content : Json) → AguiEvent
  activity_delta :
      (message_id : Option String) (well_shaped : Bool) (activity_type : ActivityType)
      (patch : List JsonPatchOp)
      → AguiEvent
  other_event : AguiEvent

unfoldable pub mark_need_snapshot : ActivityPresentationState → String → ActivityPresentationState
mark_need_snapshot state id = record state {
  need_activity_snapshots = put state.need_activity_snapshots id true;
}

-- `clearNeedSnapshot` after the activity at the id has been replaced.
unfoldable pub store_entry :
    ActivityPresentationState → String → ActivityEntry → ActivityPresentationState
store_entry state id entry = record {
  activities = put state.activities id (some entry);
  need_activity_snapshots = put state.need_activity_snapshots id false;
}

abbrev pub same_type : ActivityType → ActivityType → Bool
same_type ActivityType.coworker_work_v1 ActivityType.coworker_work_v1 = true
same_type ActivityType.task_record_v1 ActivityType.task_record_v1 = true
same_type ActivityType.sandbox_v1 ActivityType.sandbox_v1 = true
same_type ActivityType.artifact_v1 ActivityType.artifact_v1 = true
same_type ActivityType.pause_group_v1 ActivityType.pause_group_v1 = true
same_type ActivityType.controlled_ui_v1 ActivityType.controlled_ui_v1 = true
same_type ActivityType.connection_v1 ActivityType.connection_v1 = true
same_type ActivityType.audit_receipt_v1 ActivityType.audit_receipt_v1 = true
same_type left right = false

unfoldable pub identity_fields_match : ActivityIdentity → ActivityIdentity → Bool
identity_fields_match (coworker_work c l) (coworker_work c' l') = c == c' && l == l'
identity_fields_match (task_record t) (task_record t') = t == t'
identity_fields_match (sandbox s) (sandbox s') = s == s'
identity_fields_match (artifact a) (artifact a') = a == a'
identity_fields_match (pause_group p) (pause_group p') = p == p'
identity_fields_match (controlled_ui s) (controlled_ui s') = s == s'
identity_fields_match (connection c) (connection c') = c == c'
identity_fields_match (audit_receipt r) (audit_receipt r') = r == r'
identity_fields_match previous next = false

abbrev pub is_absent : Option String → Bool
is_absent none = true
is_absent (some s) = false

abbrev pub owns_other : Envelope → Bool
owns_other e =
    if same_kind e.actor_kind system
    then is_absent (truthy e.coworker_id) && is_absent (truthy e.logical_thread_id)
    else same_kind e.actor_kind coworker
      && (not (is_absent (truthy e.coworker_id)) && not (is_absent (truthy e.logical_thread_id)))

unfoldable pub envelope_owns_content : Envelope → ActivityIdentity → Bool
envelope_owns_content e (coworker_work c l) =
    same_kind e.actor_kind coworker
    && (same_option e.coworker_id (some c) && same_option e.logical_thread_id (some l))
envelope_owns_content e (task_record t) = owns_other e
envelope_owns_content e (sandbox s) = owns_other e
envelope_owns_content e (artifact a) = owns_other e
envelope_owns_content e (pause_group p) = owns_other e
envelope_owns_content e (controlled_ui s) = owns_other e
envelope_owns_content e (connection c) = owns_other e
envelope_owns_content e (audit_receipt r) = owns_other e

-- Whether a snapshot may take the place of the current entry.
unfoldable pub may_replace : Option ActivityEntry → ActivityContent → ActivityLaneOwner → Bool
may_replace none content owner = true
may_replace (some current) content owner =
    same_owner current.owner owner
    && (identity_fields_match current.content.identity content.identity
        && not (ltb content.activity_revision current.content.activity_revision))

abbrev pub is_number : Json → ℕ → Bool
is_number (natural_number n) revision = n == revision
is_number other revision = false

-- Whether the operation is the test of the current revision.
unfoldable pub tests_revision : Option JsonPatchOp → (revision : ℕ) → Bool
tests_revision (some (test path value)) revision =
    path == "/activityRevision" && is_number value revision
tests_revision (some other) revision = false
tests_revision none revision = false

-- Whether the lane of a delta, its type and the revision that it tests are those of the entry.
unfoldable pub may_patch : Envelope → ActivityEntry → ActivityType → List JsonPatchOp → Bool
may_patch e current kind patch =
    same_type (type_of current.content.identity) kind
    && (same_owner current.owner (owner_from_envelope e)
        && (envelope_owns_content e current.content.identity
            && tests_revision (first_of patch) current.content.activity_revision))

module _ (t : Texts) (d : DeltaChecks) (parse_content : Json → Option ActivityContent) where
  unfoldable pub reduce_snapshot :
      ActivityPresentationState
      → Envelope
      → (id : String) → (well_shaped : Bool) → Json
      → ActivityPresentationState
  reduce_snapshot state e id well_shaped document =
      if not well_shaped then mark_need_snapshot state id else elim (parse_content document) [
        | none ↦ mark_need_snapshot state id
        | some content ↦
            if not (envelope_owns_content e content.identity)
            then mark_need_snapshot state id
            else if not (may_replace (state.activities id) content (owner_from_envelope e))
            then mark_need_snapshot state id
            else store_entry state id record { content = content; owner = owner_from_envelope e }
      ]

  unfoldable pub patched_content : ActivityContent → List JsonPatchOp → Option ActivityContent
  patched_content content patch = elim (apply_json_patch t (document_of content) patch) [
    | none ↦ none
    | some document ↦ parse_content document
  ]

  unfoldable pub patch_entry :
      ActivityPresentationState
      → (id : String) → ActivityEntry
      → List JsonPatchOp
      → ActivityPresentationState
  patch_entry state id current patch = elim (patched_content current.content patch) [
    | none ↦ mark_need_snapshot state id
    | some content ↦
        if not (identity_fields_match current.content.identity content.identity)
        then mark_need_snapshot state id
        else store_entry state id record { content = content; owner = current.owner }
  ]

  unfoldable pub reduce_delta :
      ActivityPresentationState
      → Envelope
      → (id : String) → (well_shaped : Bool) → ActivityType
      → List JsonPatchOp
      → ActivityPresentationState
  reduce_delta state e id well_shaped kind patch =
      if state.need_activity_snapshots id
      then state
      else if not (well_shaped && is_valid_activity_delta d kind patch)
      then mark_need_snapshot state id
      else elim (state.activities id) [
        | none ↦ mark_need_snapshot state id
        | some current ↦
            if not (may_patch e current kind patch)
            then mark_need_snapshot state id
            else patch_entry state id current patch
      ]

  unfoldable pub reduce_activity :
      ActivityPresentationState → Envelope → AguiEvent → ActivityPresentationState
  reduce_activity state e (activity_snapshot none well_shaped content) = state
  reduce_activity state e (activity_snapshot (some id) well_shaped content) =
      reduce_snapshot state e id well_shaped content
  reduce_activity state e (activity_delta none well_shaped kind patch) = state
  reduce_activity state e (activity_delta (some id) well_shaped kind patch) =
      if id == "" then state else reduce_delta state e id well_shaped kind patch
  reduce_activity state e other_event = state
