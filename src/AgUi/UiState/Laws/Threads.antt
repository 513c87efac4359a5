-- ===== src/AgUi/UiState/Laws/Threads.antt =====
-- The threads over a sequence of events, for packages/integrations/ag-ui/src/ui-state-reducer.ts.
use forge_room.Base.{
  String, Bool, true, false, not, Option, some, List, [], ◌∷◌, all, ◌==◌, string_eq,
  nat_eq_instance, ◌≡◌, ◌∙◌, refl, sym, arith, eq_iff, some-injective, true-false, and_true,
  Bool-cases, inl, inr,
}
use mathlib.Core.Path.{subst}
use forge_room.Base.Json.{Json}
use forge_room.AgUi.Patch.{Texts}
use forge_room.AgUi.Lanes.{Envelope, coworker, same_kind}
use forge_room.AgUi.UiState.{
  ChannelUiState, ThreadUiState, UiPresentationState, UiEvent, need_channel,
  mark_need_thread_snapshot, show_channel, show_thread, is_system_lane, reduce_ui,
}
use forge_room.AgUi.UiState.Laws.Moves.{
  Moves, stays, asks_channel, asks_thread, shows_channel, shows_thread, event-Moves,
}

-- The state of each thread is kept under the thread's own id.
abbrev pub IsKeyed : UiPresentationState → Type 0
IsKeyed s =
    (id : String) (shown : ThreadUiState) → s.threads id ≡ some shown → shown.logical_thread_id ≡ id

need_channel-IsKeyed : (s : UiPresentationState) → IsKeyed s → IsKeyed (need_channel s)
unfolding need_channel
need_channel-IsKeyed s k = k

mark_need_thread_snapshot-IsKeyed :
    (s : UiPresentationState) (id : String) → IsKeyed s → IsKeyed (mark_need_thread_snapshot s id)
unfolding mark_need_thread_snapshot
mark_need_thread_snapshot-IsKeyed s id k = k

show_channel-IsKeyed :
    (s : UiPresentationState) (shown : ChannelUiState) → IsKeyed s → IsKeyed (show_channel s shown)
unfolding show_channel
show_channel-IsKeyed s shown k = k

show_thread-IsKeyed :
    (s : UiPresentationState) (id : String) (shown : ThreadUiState)
    → shown.logical_thread_id ≡ id
    → IsKeyed s
    → IsKeyed (show_thread s id shown)
unfolding show_thread
show_thread-IsKeyed s id shown own k other found there = elim (Bool-cases (id == other)) [
  | inl same ↦
      let e : id ≡ other = (eq_iff id other).0 same in
      let kept = some-injective (rw same at there) in
      subst (λ (x : ThreadUiState). x.logical_thread_id ≡ other) kept (own ∙ e)
  | inr apart ↦ k other found (rw apart at there)
]

not-true : (b : Bool) → not b ≡ true → b ≡ false
not-true b h = ground arith

move-IsKeyed : (e : Envelope) (s s' : UiPresentationState) → Moves e s s' → IsKeyed s → IsKeyed s'
move-IsKeyed e s s' (stays p) k = subst IsKeyed (sym p) k
move-IsKeyed e s s' (asks_channel p) k = subst IsKeyed (sym p) (need_channel-IsKeyed s k)
move-IsKeyed e s s' (asks_thread id p) k =
    subst IsKeyed (sym p) (mark_need_thread_snapshot-IsKeyed s id k)
move-IsKeyed e s s' (shows_channel shown lane p) k =
    subst IsKeyed (sym p) (show_channel-IsKeyed s shown k)
move-IsKeyed e s s' (shows_thread id shown lane own p) k =
    subst IsKeyed (sym p) (show_thread-IsKeyed s id shown own k)

-- An envelope that is not of the system leaves the channel, one that is not of a coworker the
-- threads.
abbrev KeepsOthers : Envelope → UiPresentationState → UiPresentationState → Type 0
KeepsOthers e s s' =
    (is_system_lane e ≡ false → s'.channel ≡ s.channel)
    × (same_kind e.actor_kind coworker ≡ false → s'.threads ≡ s.threads)

move-KeepsOthers : (e : Envelope) (s s' : UiPresentationState) → Moves e s s' → KeepsOthers e s s'
unfolding need_channel mark_need_thread_snapshot show_channel show_thread
move-KeepsOthers e s s' (stays p) = subst (KeepsOthers e s) (sym p) ((λ _. refl), (λ _. refl))
move-KeepsOthers e s s' (asks_channel p) =
    subst (KeepsOthers e s) (sym p) ((λ _. refl), (λ _. refl))
move-KeepsOthers e s s' (asks_thread id p) =
    subst (KeepsOthers e s) (sym p) ((λ _. refl), (λ _. refl))
move-KeepsOthers e s s' (shows_channel shown lane p) =
    subst (KeepsOthers e s) (sym p) ((λ other. absurd (true-false (sym lane ∙ other))), (λ _. refl))
move-KeepsOthers e s s' (shows_thread id shown lane own p) =
    subst (KeepsOthers e s) (sym p) ((λ _. refl), (λ other. absurd (true-false (sym lane ∙ other))))

module _ (t : Texts) (parse_channel : Json → Option ChannelUiState)
    (parse_thread : Json → Option ThreadUiState) where
  -- The state after a sequence of events.
  unfoldable pub reduce_ui_all :
      UiPresentationState → List (Envelope × UiEvent) → UiPresentationState
  reduce_ui_all s [] = s
  reduce_ui_all s ((e, event) ∷ events) =
      reduce_ui_all (reduce_ui t parse_channel parse_thread s e event) events

  -- Whatever events come, each thread's state is kept under the thread's own id, if it was before.
  pub threads-IsKeyed :
      (s : UiPresentationState) (events : List (Envelope × UiEvent))
      → IsKeyed s
      → IsKeyed (reduce_ui_all s events)
  unfolding reduce_ui_all
  threads-IsKeyed s [] k = k
  threads-IsKeyed s ((e, event) ∷ events) k =
      let s' = reduce_ui t parse_channel parse_thread s e event in
      threads-IsKeyed s' events
        (move-IsKeyed e s s' (event-Moves t parse_channel parse_thread s e event) k)

  -- Events of lanes other than the system's leave the shown state of the channel as it is, and
  -- events of lanes other than coworkers' leave the shown states of the threads as they are.
  pub lanes_keep_others :
      (s : UiPresentationState) (events : List (Envelope × UiEvent))
      → (all (λ (p : Envelope × UiEvent). not (is_system_lane p.0)) events ≡ true
          → (reduce_ui_all s events).channel ≡ s.channel)
        × (all (λ (p : Envelope × UiEvent). not (same_kind (p.0).actor_kind coworker)) events ≡ true
            → (reduce_ui_all s events).threads ≡ s.threads)
  unfolding reduce_ui_all
  lanes_keep_others s [] = ((λ _. refl), (λ _. refl))
  lanes_keep_others s ((e, event) ∷ events) =
      let s' = reduce_ui t parse_channel parse_thread s e event in
      let (channel, threads) =
        move-KeepsOthers e s s' (event-Moves t parse_channel parse_thread s e event) in
      let (channel', threads') = lanes_keep_others s' events in
      (
        (λ foreign.
            let (here, rest) = and_true (not (is_system_lane e)) _ foreign in
            channel' rest ∙ channel (not-true (is_system_lane e) here)),
        (λ foreign.
            let (here, rest) = and_true (not (same_kind e.actor_kind coworker)) _ foreign in
            threads' rest ∙ threads (not-true (same_kind e.actor_kind coworker) here)),
      )
