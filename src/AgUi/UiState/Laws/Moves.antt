-- ===== src/AgUi/UiState/Laws/Moves.antt =====
-- What one event does to the shown states, for packages/integrations/ag-ui/src/ui-state-reducer.ts.
use forge_room.Base.{
  ℕ, String, true, false, not, ◌&&◌, Option, some, List, ◌==◌, string_eq, nat_eq_instance, ◌≡◌,
  refl, arith, eq_iff, and_true, Bool-cases, Option-cases, inl, inr,
}
use forge_room.Base.Json.{Json, object}
use forge_room.Orchestration.TurnQueue.{is_falsy}
use forge_room.AgUi.Patch.{JsonPatchOp, Texts}
use forge_room.AgUi.Lanes.{Envelope, coworker, same_kind, same_option}
use forge_room.AgUi.UiState.{
  ChannelUiState, ThreadUiState, UiPresentationState, UiEvent, channel_snapshot, thread_snapshot,
  channel_delta, thread_delta, other_event, need_channel, mark_need_thread_snapshot, show_channel,
  show_thread, is_system_lane, is_coworker_lane, is_valid_state_delta, apply_channel_snapshot,
  apply_thread_snapshot, patched_channel, patched_thread, apply_channel_delta,
  apply_delta_to_thread, reduce_ui,
}

-- The changes of the shown states that an envelope may bring.
pub data Moves (e : Envelope) (s s' : UiPresentationState) : Type 0 where
  stays : s' ≡ s → Moves e s s'
  asks_channel : s' ≡ need_channel s → Moves e s s'
  asks_thread : (id : String) → s' ≡ mark_need_thread_snapshot s id → Moves e s s'
  shows_channel :
      (shown : ChannelUiState) → is_system_lane e ≡ true → s' ≡ show_channel s shown → Moves e s s'
  shows_thread :
      (id : String) (shown : ThreadUiState)
      → same_kind e.actor_kind coworker ≡ true
      → shown.logical_thread_id ≡ id
      → s' ≡ show_thread s id shown
      → Moves e s s'

module _ (t : Texts) (parse_channel : Json → Option ChannelUiState)
    (parse_thread : Json → Option ThreadUiState) where
  channel_snapshot-Moves :
      (s : UiPresentationState) (e : Envelope) (snapshot : ChannelUiState)
      → Moves e s (apply_channel_snapshot t parse_channel parse_thread s e snapshot)
  unfolding apply_channel_snapshot
  channel_snapshot-Moves s e snapshot = elim (Bool-cases (is_system_lane e)) [
    | inr foreign ↦ rw (foreign, apply_channel_snapshot) (asks_channel refl)
    | inl own ↦ elim (Bool-cases (snapshot.channel == e.channel_id)) [
      | inr other ↦ rw (own, other, apply_channel_snapshot) (asks_channel refl)
      | inl here ↦ elim (Option-cases (parse_channel (object snapshot.fields))) [
        | inl bad ↦ rw (own, here, bad, apply_channel_snapshot) (asks_channel refl)
        | inr (shown, good) ↦
            rw (own, here, good, apply_channel_snapshot) (shows_channel shown own refl)
      ]
    ]
  ]

  thread_snapshot-Moves :
      (s : UiPresentationState) (e : Envelope) (snapshot : ThreadUiState)
      → Moves e s (apply_thread_snapshot t parse_channel parse_thread s e snapshot)
  unfolding apply_thread_snapshot
  thread_snapshot-Moves s e snapshot =
      let id = snapshot.logical_thread_id in
      elim (Bool-cases (is_coworker_lane e)) [
        | inr foreign ↦ rw (foreign, apply_thread_snapshot) (asks_thread id refl)
        | inl own ↦
            elim (Bool-cases (
              same_option e.coworker_id (some snapshot.coworker_id)
              && same_option e.logical_thread_id (some snapshot.logical_thread_id))) [
                | inr other ↦ rw (own, other, apply_thread_snapshot) (asks_thread id refl)
                | inl here ↦ elim (Option-cases (parse_thread (object snapshot.fields))) [
                  | inl bad ↦ rw (own, here, bad, apply_thread_snapshot) (asks_thread id refl)
                  | inr (shown, good) ↦
                      rw (own, here, good, apply_thread_snapshot)
                        (shows_thread shown.logical_thread_id shown (ground arith) refl refl)
                ]
              ]
      ]

  channel_delta-Moves :
      (s : UiPresentationState) (e : Envelope) (revision : ℕ) (patch : List JsonPatchOp)
      → Moves e s (apply_channel_delta t parse_channel parse_thread s e revision patch)
  unfolding apply_channel_delta
  channel_delta-Moves s e revision patch = elim (Bool-cases s.need_channel_snapshot) [
    | inl latched ↦ simp (latched, apply_channel_delta) (stays refl)
    | inr free ↦ elim (Bool-cases (is_system_lane e)) [
      | inr foreign ↦ simp (free, foreign, apply_channel_delta) (asks_channel refl)
      | inl own ↦ elim (Option-cases s.channel) [
        | inl missing ↦ simp (free, own, missing, apply_channel_delta) (asks_channel refl)
        | inr (current, here) ↦ elim (Bool-cases (current.revision == revision)) [
          | inr stale ↦ simp (free, own, here, stale, apply_channel_delta) (asks_channel refl)
          | inl based ↦
              elim (Option-cases (patched_channel t parse_channel parse_thread current patch)) [
                | inl bad ↦
                    simp (free, own, here, based, bad, apply_channel_delta) (asks_channel refl)
                | inr (shown, good) ↦
                    simp (free, own, here, based, good, apply_channel_delta)
                      (shows_channel shown own refl)
              ]
        ]
      ]
    ]
  ]

  thread_delta-Moves :
      (s : UiPresentationState) (e : Envelope) (id : String) (revision : ℕ)
      (patch : List JsonPatchOp)
      → Moves e s (apply_delta_to_thread t parse_channel parse_thread s e id revision patch)
  unfolding apply_delta_to_thread
  thread_delta-Moves s e id revision patch = elim (Bool-cases (s.need_thread_snapshots id)) [
    | inl latched ↦ simp (latched, apply_delta_to_thread) (stays refl)
    | inr free ↦
        elim (Bool-cases (same_kind e.actor_kind coworker && not (is_falsy e.coworker_id))) [
          | inr foreign ↦ simp (free, foreign, apply_delta_to_thread) (asks_thread id refl)
          | inl own ↦ elim (Option-cases (s.threads id)) [
            | inl missing ↦ simp (free, own, missing, apply_delta_to_thread) (asks_thread id refl)
            | inr (current, here) ↦
                elim (Bool-cases (
                  current.revision == revision
                  && same_option (some current.coworker_id) e.coworker_id)) [
                    | inr stale ↦
                        simp (free, own, here, stale, apply_delta_to_thread) (asks_thread id refl)
                    | inl based ↦ patched current free (and_true _ _ own).0 own here based
                  ]
          ]
        ]
  ]
    where
      patched :
          (current : ThreadUiState)
          → s.need_thread_snapshots id ≡ false
          → same_kind e.actor_kind coworker ≡ true
          → (same_kind e.actor_kind coworker && not (is_falsy e.coworker_id)) ≡ true
          → s.threads id ≡ some current
          → (current.revision == revision && same_option (some current.coworker_id) e.coworker_id)
            ≡ true
          → Moves e s (apply_delta_to_thread t parse_channel parse_thread s e id revision patch)
      patched current free lane own here based =
          elim (Option-cases (patched_thread t parse_channel parse_thread current patch)) [
            | inl bad ↦
                simp (free, own, here, based, bad, apply_delta_to_thread) (asks_thread id refl)
            | inr (shown, good) ↦
                elim (Bool-cases (
                  shown.logical_thread_id == id
                  && same_option (some shown.coworker_id) e.coworker_id)) [
                    | inr other ↦
                        simp (free, own, here, based, good, other, apply_delta_to_thread)
                          (asks_thread id refl)
                    | inl same ↦
                        simp (free, own, here, based, good, same, apply_delta_to_thread)
                          (shows_thread id shown lane
                            ((eq_iff shown.logical_thread_id id).0 (and_true _ _ same).0) refl)
                  ]
          ]

  -- Each event brings one of the changes.
  pub event-Moves :
      (s : UiPresentationState) (e : Envelope) (event : UiEvent)
      → Moves e s (reduce_ui t parse_channel parse_thread s e event)
  unfolding reduce_ui
  event-Moves s e (channel_snapshot true snapshot) = channel_snapshot-Moves s e snapshot
  event-Moves s e (channel_snapshot false snapshot) = asks_channel refl
  event-Moves s e (thread_snapshot true snapshot) = thread_snapshot-Moves s e snapshot
  event-Moves s e (thread_snapshot false snapshot) = asks_thread snapshot.logical_thread_id refl
  event-Moves s e (channel_delta well_shaped revision patch) =
      elim (Bool-cases (is_valid_state_delta well_shaped revision patch)) [
        | inr bad ↦ rw (bad, reduce_ui) (asks_channel refl)
        | inl good ↦ rw (good, reduce_ui) (channel_delta-Moves s e revision patch)
      ]
  event-Moves s e (thread_delta well_shaped revision patch) =
      elim (Option-cases e.logical_thread_id) [
        | inl absent ↦ simp (absent, reduce_ui) (stays refl)
        | inr (id, present) ↦ elim (Bool-cases (id == "")) [
          | inl empty ↦ simp (present, empty, reduce_ui) (stays refl)
          | inr named ↦ elim (Bool-cases (is_valid_state_delta well_shaped revision patch)) [
            | inr bad ↦ simp (present, named, bad, reduce_ui) (asks_thread id refl)
            | inl good ↦
                simp (present, named, good, reduce_ui) (thread_delta-Moves s e id revision patch)
          ]
        ]
      ]
  event-Moves s e other_event = stays refl
