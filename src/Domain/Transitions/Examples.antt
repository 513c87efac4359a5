-- ===== src/Domain/Transitions/Examples.antt =====
-- Histories of single machines.
use forge_room.Base.{ℕ, ◌≤◌, refl}
use forge_room.Base.Machine.{Trace, here, next, PassesThrough}
use forge_room.Domain.Transitions.Task.{TaskStatus, can_transition_task}
use forge_room.Domain.Transitions.Turn.{AgentTurnState, can_transition_agent_turn}
use forge_room.Domain.Transitions.Draft.{CoworkerDraftState, can_transition_coworker_draft}
use forge_room.Domain.Transitions.Proposal.{ActionProposalState, can_transition_action_proposal}
use forge_room.Domain.Transitions.Laws.Gates.{effect_needs_allowed}
use forge_room.Domain.Transitions.Laws.Lifecycles.{proposal_history_bound, task_can_end}

-- A proposal that is allowed, runs and succeeds.
succeeds :
    Trace can_transition_action_proposal ActionProposalState.proposed ActionProposalState.succeeded
      3
unfolding can_transition_action_proposal
succeeds =
    next {t = ActionProposalState.executing}
      (next {t = ActionProposalState.allowed} (next here refl) refl) refl

effect_needs_allowed_example :
    PassesThrough can_transition_action_proposal ActionProposalState.allowed
      ActionProposalState.proposed ActionProposalState.succeeded 3
effect_needs_allowed_example = effect_needs_allowed refl succeeds refl

proposal_history_bound_example : 3 ≤ 4
proposal_history_bound_example = proposal_history_bound succeeds

-- A draft that is reviewed, confirmed and provisioned.
provisions :
    Trace can_transition_coworker_draft CoworkerDraftState.draft CoworkerDraftState.provisioning 3
unfolding can_transition_coworker_draft
provisions =
    next {t = CoworkerDraftState.confirmed}
      (next {t = CoworkerDraftState.awaiting_review} (next here refl) refl) refl

-- A turn that is created, streams and completes.
completes : Trace can_transition_agent_turn AgentTurnState.intended AgentTurnState.completed 4
unfolding can_transition_agent_turn
completes =
    next {t = AgentTurnState.streaming}
      (next {t = AgentTurnState.creating}
        (next {t = AgentTurnState.acquiring} (next here refl) refl) refl)
      refl

task_can_end_example :
    ((n : ℕ) × Trace can_transition_task TaskStatus.blocked TaskStatus.done n)
    × ((n : ℕ) × Trace can_transition_task TaskStatus.blocked TaskStatus.cancelled n)
task_can_end_example = task_can_end TaskStatus.blocked refl
