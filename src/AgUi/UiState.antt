-- ===== src/AgUi/UiState.antt =====
-- packages/integrations/ag-ui/src/ui-state-reducer.ts: the shown state of a channel and of the
-- threads in it. An event says whether zod accepts what is not modelled of it; the schemas of the
-- two states are `parse_channel` and `parse_thread`.
pub mod Laws
mod Examples
use forge_room.Base.{
  ℕ, String, Bool, true, false, not, ◌&&◌, ◌||◌, Option, none, some, if◌then◌else◌, List, ◌==◌,
  string_eq, nat_eq_instance,
}
use forge_room.Base.Json.{Json, Members, object}
use forge_room.Orchestration.TurnQueue.{is_falsy}
use forge_room.AgUi.Patch.{JsonPatchOp, Texts, apply_json_patch}
use forge_room.AgUi.Lanes.{ActorKind, coworker, system, same_kind, Envelope, same_option, put}
use forge_room.AgUi.Delta.{is_valid_revision_patch}

-- A state that its schema has accepted.
pub record ChannelUiState : Type 0 where
  pub channel : String
  pub revision : ℕ
  pub fields : Members

pub record ThreadUiState : Type 0 where
  pub logical_thread_id : String
  pub coworker_id : String
  pub revision : ℕ
  pub fields : Members

pub record UiPresentationState : Type 0 where
  pub channel : Option ChannelUiState
  pub threads : String → Option ThreadUiState
  pub need_channel_snapshot : Bool
  pub need_thread_snapshots : String → Bool

abbrev pub initial_ui_presentation_state : UiPresentationState
initial_ui_presentation_state = record {
  channel = none;
  threads = λ id. none;
  need_channel_snapshot = false;
  need_thread_snapshots = λ id. false;
}

pub data UiEvent : Type 0 where
  channel_snapshot : (well_shaped : Bool) (snapshot : ChannelUiState) → UiEvent
  thread_snapshot : (well_shaped : Bool) (snapshot : ThreadUiState) → UiEvent
  channel_delta : (well_shaped : Bool) (revision : ℕ) (patch : List JsonPatchOp) → UiEvent
  thread_delta : (well_shaped : Bool) (revision : ℕ) (patch : List JsonPatchOp) → UiEvent
  other_event : UiEvent

unfoldable pub need_channel : UiPresentationState → UiPresentationState
need_channel state = record state { need_channel_snapshot = true }

unfoldable pub mark_need_thread_snapshot : UiPresentationState → String → UiPresentationState
mark_need_thread_snapshot state id = record state {
  need_thread_snapshots = put state.need_thread_snapshots id true;
}

unfoldable pub show_channel : UiPresentationState → ChannelUiState → UiPresentationState
show_channel state shown = record state { channel = some shown; need_channel_snapshot = false }

-- `clearNeedThreadSnapshot` after the thread's state has been replaced.
unfoldable pub show_thread : UiPresentationState → String → ThreadUiState → UiPresentationState
show_thread state id shown = record state {
  threads = put state.threads id (some shown);
  need_thread_snapshots = put state.need_thread_snapshots id false;
}

abbrev pub is_system_lane : Envelope → Bool
is_system_lane e =
    same_kind e.actor_kind system && (is_falsy e.coworker_id && is_falsy e.logical_thread_id)

abbrev pub is_coworker_lane : Envelope → Bool
is_coworker_lane e =
    same_kind e.actor_kind coworker
    && (not (is_falsy e.coworker_id) && not (is_falsy e.logical_thread_id))

-- Whether `stateDeltaEventSchema` accepts the revisions of a delta.
abbrev pub is_valid_state_delta : (well_shaped : Bool) → ℕ → List JsonPatchOp → Bool
is_valid_state_delta well_shaped revision patch =
    well_shaped && is_valid_revision_patch patch (some revision) "/revision"

module _ (t : Texts) (parse_channel : Json → Option ChannelUiState)
    (parse_thread : Json → Option ThreadUiState) where
  unfoldable pub apply_channel_snapshot :
      UiPresentationState → Envelope → ChannelUiState → UiPresentationState
  apply_channel_snapshot state e snapshot =
      if not (is_system_lane e)
      then need_channel state
      else if not (snapshot.channel == e.channel_id)
      then need_channel state
      else elim (parse_channel (object snapshot.fields)) [
        | none ↦ need_channel state
        | some shown ↦ show_channel state shown
      ]

  unfoldable pub apply_thread_snapshot :
      UiPresentationState → Envelope → ThreadUiState → UiPresentationState
  apply_thread_snapshot state e snapshot =
      if not (is_coworker_lane e)
      then mark_need_thread_snapshot state snapshot.logical_thread_id
      else if not (
          same_option e.coworker_id (some snapshot.coworker_id)
          && same_option e.logical_thread_id (some snapshot.logical_thread_id))
      then mark_need_thread_snapshot state snapshot.logical_thread_id
      else elim (parse_thread (object snapshot.fields)) [
        | none ↦ mark_need_thread_snapshot state snapshot.logical_thread_id
        | some shown ↦ show_thread state shown.logical_thread_id shown
      ]

  unfoldable pub patched_channel : ChannelUiState → List JsonPatchOp → Option ChannelUiState
  patched_channel current patch = elim (apply_json_patch t (object current.fields) patch) [
    | none ↦ none
    | some document ↦ parse_channel document
  ]

  unfoldable pub patched_thread : ThreadUiState → List JsonPatchOp → Option ThreadUiState
  patched_thread current patch = elim (apply_json_patch t (object current.fields) patch) [
    | none ↦ none
    | some document ↦ parse_thread document
  ]

  unfoldable pub apply_channel_delta :
      UiPresentationState → Envelope → (revision : ℕ) → List JsonPatchOp → UiPresentationState
  apply_channel_delta state e revision patch =
      if state.need_channel_snapshot
      then state
      else if not (is_system_lane e)
      then need_channel state
      else elim state.channel [
        | none ↦ need_channel state
        | some current ↦
            if not (current.revision == revision)
            then need_channel state
            else elim (patched_channel current patch) [
              | none ↦ need_channel state
              | some shown ↦ show_channel state shown
            ]
      ]

  -- The delta of the thread `id`, the envelope's.
  unfoldable pub apply_delta_to_thread :
      UiPresentationState
      → Envelope
      → (id : String) → (revision : ℕ) → List JsonPatchOp
      → UiPresentationState
  apply_delta_to_thread state e id revision patch =
      if state.need_thread_snapshots id
      then state
      else if not (same_kind e.actor_kind coworker && not (is_falsy e.coworker_id))
      then mark_need_thread_snapshot state id
      else elim (state.threads id) [
        | none ↦ mark_need_thread_snapshot state id
        | some current ↦
            if not
              (current.revision == revision && same_option (some current.coworker_id) e.coworker_id)
            then mark_need_thread_snapshot state id
            else elim (patched_thread current patch) [
              | none ↦ mark_need_thread_snapshot state id
              | some shown ↦
                  if not (
                    shown.logical_thread_id == id
                    && same_option (some shown.coworker_id) e.coworker_id)
                  then mark_need_thread_snapshot state id
                  else show_thread state id shown
            ]
      ]

  -- The thread of the envelope, if it has one.
  abbrev pub in_thread :
      UiPresentationState → Option String → (String → UiPresentationState) → UiPresentationState
  in_thread state none go = state
  in_thread state (some id) go = if id == "" then state else go id

  unfoldable pub reduce_ui : UiPresentationState → Envelope → UiEvent → UiPresentationState
  reduce_ui state e (channel_snapshot well_shaped snapshot) =
      if not well_shaped then need_channel state else apply_channel_snapshot state e snapshot
  reduce_ui state e (thread_snapshot well_shaped snapshot) =
      if not well_shaped
      then mark_need_thread_snapshot state snapshot.logical_thread_id
      else apply_thread_snapshot state e snapshot
  reduce_ui state e (channel_delta well_shaped revision patch) =
      if not (is_valid_state_delta well_shaped revision patch)
      then need_channel state
      else apply_channel_delta state e revision patch
  reduce_ui state e (thread_delta well_shaped revision patch) =
      in_thread state e.logical_thread_id λ id.
        if not (is_valid_state_delta well_shaped revision patch)
        then mark_need_thread_snapshot state id
        else apply_delta_to_thread state e id revision patch
  reduce_ui state e other_event = state
