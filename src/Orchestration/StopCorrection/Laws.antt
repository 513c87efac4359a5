-- ===== src/Orchestration/StopCorrection/Laws.antt =====
-- What stopping and replaying do.
pub mod Replay
use forge_room.Base.{
  ℕ, String, Bool, true, false, Option, none, some, ◌≡◌, ◌≢◌, ◌↔◌, ◌⊎◌, inl, inr, ◌<◌, ◌≤◌, refl,
  arith, eq_iff, List, [], ◌∷◌, includes, sort, insert_sorted, leb, any, ◌||◌, ◌==◌,
  nat_eq_instance, map, Bool-cases, if◌then◌else◌,
}
use forge_room.Domain.Transitions.Step.{
  RunStepState, queued, acquiring_session, running, cancelling, can_transition_run_step,
}
use forge_room.Domain.Transitions.Turn.{AgentTurnState, agent_turn_eq, can_transition_agent_turn}
use forge_room.Orchestration.StopCorrection.{
  decide_stop, enter_cancelling, call_cancel, mark_needs_attention_on_restart,
  restart_active_turn_states, dedupe_from, dedupe_replay_envelopes,
}

-- Stopping enters `cancelling`, and asks the provider to cancel, exactly in the states from which
-- the step table accepts the move to `cancelling`, and in `queued` and `acquiring_session`, from
-- which the table refuses it.
pub stop_enters_iff :
    (s : RunStepState)
    → ((decide_stop s ≡ enter_cancelling)
        ↔ ((can_transition_run_step s cancelling ≡ true) ⊎ (s ≡ queued) ⊎ (s ≡ acquiring_session)))
      × (call_cancel (decide_stop s) ≡ true ↔ (decide_stop s ≡ enter_cancelling))
      × (can_transition_run_step queued cancelling ≡ false)
      × (can_transition_run_step acquiring_session cancelling ≡ false)
unfolding decide_stop can_transition_run_step
stop_enters_iff s = ground arith

-- A turn is among those that a restart marks exactly when the turn table accepts the move from its
-- state to the state of the mark; and the mark's state has no ordinary move out of it.
pub restart_marks_iff :
    (s : AgentTurnState)
    → ((includes restart_active_turn_states s ≡ true)
        ↔ (can_transition_agent_turn s mark_needs_attention_on_restart.state ≡ true))
      × (can_transition_agent_turn mark_needs_attention_on_restart.state s ≡ false)
unfolding can_transition_agent_turn mark_needs_attention_on_restart
restart_marks_iff s = ground arith
