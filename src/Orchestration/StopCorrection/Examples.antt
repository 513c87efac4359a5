-- ===== src/Orchestration/StopCorrection/Examples.antt =====
-- A stop in one state, and a replay with a repeated envelope.
use forge_room.Base.{true, false, ℕ, [], ◌∷◌, map, includes, ◌≡◌, ◌↔◌, ◌⊎◌, nat_eq_instance}
use forge_room.Domain.Transitions.Step.{
  running, queued, acquiring_session, cancelling, can_transition_run_step,
}
use forge_room.Domain.Transitions.Turn.{agent_turn_eq}
use forge_room.Orchestration.StopCorrection.{
  decide_stop, enter_cancelling, call_cancel, dedupe_replay_envelopes,
}
use forge_room.Orchestration.StopCorrection.Laws.{stop_enters_iff}
use forge_room.Orchestration.StopCorrection.Laws.Replay.{StrictlyIncreasing, replay_once_in_order}

stop_enters_iff_example :
    ((decide_stop running ≡ enter_cancelling) ↔ (
      (can_transition_run_step running cancelling ≡ true)
      ⊎ (running ≡ queued)
      ⊎ (running ≡ acquiring_session)))
    × (call_cancel (decide_stop running) ≡ true ↔ (decide_stop running ≡ enter_cancelling))
    × (can_transition_run_step queued cancelling ≡ false)
    × (can_transition_run_step acquiring_session cancelling ≡ false)
stop_enters_iff_example = stop_enters_iff running

-- An envelope that is no more than its channel sequence.
abbrev sequence_of : ℕ → ℕ
sequence_of n = n

replay_once_in_order_example :
    StrictlyIncreasing sequence_of (dedupe_replay_envelopes sequence_of (3 ∷ 1 ∷ 3 ∷ []))
    × ((n : ℕ)
        → includes (map sequence_of (dedupe_replay_envelopes sequence_of (3 ∷ 1 ∷ 3 ∷ []))) n
          ≡ includes (map sequence_of (3 ∷ 1 ∷ 3 ∷ [])) n)
replay_once_in_order_example = replay_once_in_order sequence_of (3 ∷ 1 ∷ 3 ∷ [])
