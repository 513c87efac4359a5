-- ===== src/Orchestration/MultiAgentRun/Examples.antt =====
-- Two recipients, and the steps of a run.
use forge_room.Base.{false, String, List, [], ◌∷◌, map, ◌≡◌, ◌≢◌, ◌↔◌, ok}
use forge_room.Domain.Transitions.Step.{RunStepState}
use forge_room.Orchestration.MultiAgentRun.{
  DirectRunRecipient, DirectRunStepPlan, plan_direct_run_steps, plan_step, objective_of,
  aggregate_run_from_steps,
}
use forge_room.Orchestration.MultiAgentRun.Laws.Plan.{AreDistinct, plan_made_iff}
use forge_room.Orchestration.MultiAgentRun.Laws.Aggregate.{Describes, run_lifecycle_iff}

abbrev two_recipients : List DirectRunRecipient
two_recipients =
    record {
      coworker_id = "w1";
      handle = "ada";
      channel_agent_session_id = "s1";
      logical_thread_id = "t1";
    }
    ∷ record {
      coworker_id = "w2";
      handle = "bo";
      channel_agent_session_id = "s2";
      logical_thread_id = "t2";
    }
    ∷ []

abbrev untrimmed : String → String
untrimmed s = s

abbrev two_steps : List DirectRunStepPlan
two_steps = map (plan_step "Ship it") two_recipients

plan_made_iff_example :
    (plan_direct_run_steps untrimmed "Ship it" two_recipients false false ≡ ok two_steps) ↔ (
      (false ≡ false)
      × (false ≡ false)
      × (two_recipients ≢ [])
      × AreDistinct two_recipients
      × (two_steps ≡ map (plan_step (objective_of (untrimmed "Ship it"))) two_recipients))
plan_made_iff_example = plan_made_iff untrimmed "Ship it" two_recipients false false two_steps

abbrev mixed_steps : List RunStepState
mixed_steps = RunStepState.completed ∷ RunStepState.running ∷ RunStepState.queued ∷ []

run_lifecycle_iff_example : Describes (aggregate_run_from_steps mixed_steps).lifecycle mixed_steps
run_lifecycle_iff_example = run_lifecycle_iff mixed_steps (λ e. cc)
