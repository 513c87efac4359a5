-- ===== src/Domain/Transitions/Laws/Lifecycles.antt =====
-- Ends and bounds of the machines of packages/domain/src/transitions.ts.
use forge_room.Base.{ℕ, ◌≤◌, ◌<◌, Bool, true, false, ◌≡◌, refl, arith}
use forge_room.Base.Machine.{Trace, here, next, Trace-bound}
use forge_room.Domain.Transitions.Task.{TaskStatus, can_transition_task}
use forge_room.Domain.Transitions.Turn.{
  AgentTurnState, can_transition_agent_turn, can_reconcile_agent_turn,
}
use forge_room.Domain.Transitions.Pause.{PauseGroupState, can_transition_pause_group}
use forge_room.Domain.Transitions.Proposal.{ActionProposalState, can_transition_action_proposal}

abbrev proposal_rank : ActionProposalState → ℕ
proposal_rank ActionProposalState.proposed = 0
proposal_rank ActionProposalState.allowed = 1
proposal_rank ActionProposalState.executing = 2
proposal_rank ActionProposalState.unknown = 3
proposal_rank _ = 4

proposal_rank_up :
    (s t : ActionProposalState)
    → can_transition_action_proposal s t ≡ true
    → proposal_rank s < proposal_rank t
unfolding can_transition_action_proposal
proposal_rank_up s t h = ground arith

proposal_rank-le : (s : ActionProposalState) → proposal_rank s ≤ 4
proposal_rank-le s = ground arith

-- A proposal makes at most four accepted moves, whatever its first state.
pub proposal_history_bound :
    {s t : ActionProposalState} {n : ℕ} → Trace can_transition_action_proposal s t n → n ≤ 4
proposal_history_bound {t} tr =
    omega (arith, proposal_rank-le t, Trace-bound _ proposal_rank proposal_rank_up tr)

abbrev pause_rank : PauseGroupState → ℕ
pause_rank PauseGroupState.collecting = 0
pause_rank PauseGroupState.ready = 1
pause_rank PauseGroupState.resuming = 2
pause_rank _ = 3

pause_rank_up :
    (s t : PauseGroupState) → can_transition_pause_group s t ≡ true → pause_rank s < pause_rank t
unfolding can_transition_pause_group
pause_rank_up s t h = ground arith

-- A history that starts and ends with the group in `resuming` makes no move: a pause group never
-- begins to resume a second time.
pub resuming_once :
    {n : ℕ}
    → Trace can_transition_pause_group PauseGroupState.resuming PauseGroupState.resuming n
    → n ≡ 0
resuming_once tr = omega (arith, Trace-bound _ pause_rank pause_rank_up tr)

abbrev turn_rank : AgentTurnState → ℕ
turn_rank AgentTurnState.intended = 0
turn_rank AgentTurnState.acquiring = 1
turn_rank AgentTurnState.creating = 2
turn_rank AgentTurnState.resuming = 2
turn_rank AgentTurnState.streaming = 3
turn_rank _ = 4

turn_rank_up :
    (s t : AgentTurnState) → can_transition_agent_turn s t ≡ true → turn_rank s < turn_rank t
unfolding can_transition_agent_turn
turn_rank_up s t h = ground arith

turn_rank-le : (s : AgentTurnState) → turn_rank s ≤ 4
turn_rank-le s = ground arith

-- An agent turn makes at most four accepted moves, whatever its first state.
pub turn_history_bound :
    {s t : AgentTurnState} {n : ℕ} → Trace can_transition_agent_turn s t n → n ≤ 4
turn_history_bound {t} tr = omega (arith, turn_rank-le t, Trace-bound _ turn_rank turn_rank_up tr)

-- A recovery edge leaves a state that has no ordinary edge, and enters one from which the turn
-- can still complete by an ordinary edge.
pub reconcile_only_terminal :
    (s t : AgentTurnState)
    → can_reconcile_agent_turn s t ≡ true
    → ((u : AgentTurnState) → can_transition_agent_turn s u ≡ false)
      × (can_transition_agent_turn t AgentTurnState.completed ≡ true)
unfolding can_reconcile_agent_turn can_transition_agent_turn
reconcile_only_terminal AgentTurnState.uncertain AgentTurnState.streaming h = ((λ u. refl), refl)
reconcile_only_terminal s t h = absurd (ground arith)

abbrev is_final : TaskStatus → Bool
is_final TaskStatus.done = true
is_final TaskStatus.cancelled = true
is_final _ = false

-- A final task status, `done` or `cancelled`, is never left: every history from it makes no move.
pub task_final_stays :
    {s t : TaskStatus} {n : ℕ}
    → is_final s ≡ true
    → Trace can_transition_task s t n
    → (n ≡ 0) × (s ≡ t)
unfolding can_transition_task
task_final_stays f here = (refl, refl)
task_final_stays {s} f (next {t} {u} tr m) =
    let (e, same) = task_final_stays f tr in absurd (ground arith)

-- From every status that is not final, a task can be both finished and cancelled.
pub task_can_end :
    (s : TaskStatus)
    → is_final s ≡ false
    → ((n : ℕ) × Trace can_transition_task s TaskStatus.done n)
      × ((n : ℕ) × Trace can_transition_task s TaskStatus.cancelled n)
unfolding can_transition_task
task_can_end TaskStatus.todo f =
    ((2, next {t = TaskStatus.in_progress} (next here refl) refl), (1, next here refl))
task_can_end TaskStatus.in_progress f = ((1, next here refl), (1, next here refl))
task_can_end TaskStatus.blocked f =
    ((2, next {t = TaskStatus.in_progress} (next here refl) refl), (1, next here refl))
task_can_end TaskStatus.in_review f = ((1, next here refl), (1, next here refl))
task_can_end TaskStatus.done f = absurd (cc)
task_can_end TaskStatus.cancelled f = absurd (cc)
