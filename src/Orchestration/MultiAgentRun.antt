-- ===== src/Orchestration/MultiAgentRun.antt =====
-- packages/orchestration/src/multi-agent-run.ts: the steps of a direct run, and what a run shows of
-- its steps.
pub mod Laws
mod Examples
use forge_room.Base.{
  ℕ, suc, ◌+◌, String, Bool, true, false, not, Option, none, some, if◌then◌else◌, ◌==◌,
  nat_eq_instance, string_eq, List, [], ◌∷◌, includes, ltb, ◌&&◌, Result, ok, err,
}
use forge_room.Domain.Transitions.Step.{RunStepState}
use forge_room.Domain.Transitions.Run.{RunLifecycle}

pub record DirectRunRecipient : Type 0 where
  pub coworker_id : String
  pub handle : String
  pub channel_agent_session_id : String
  pub logical_thread_id : String

pub record DirectRunStepPlan : Type 0 where
  pub assigned_coworker_id : String
  pub handle : String
  pub channel_agent_session_id : String
  pub logical_thread_id : String
  pub objective : String

pub data PlanRefusal : Type 0 where
  empty_recipients duplicate_coworker duplicate_session : PlanRefusal
  recursive_dispatch_forbidden native_subagent_forbidden : PlanRefusal

abbrev pub plan_step : String → DirectRunRecipient → DirectRunStepPlan
plan_step goal r = record {
  assigned_coworker_id = r.coworker_id;
  handle = r.handle;
  channel_agent_session_id = r.channel_agent_session_id;
  logical_thread_id = r.logical_thread_id;
  objective = goal;
}

abbrev pub prepend_step :
    DirectRunStepPlan
    → Result PlanRefusal (List DirectRunStepPlan)
    → Result PlanRefusal (List DirectRunStepPlan)
prepend_step step (ok steps) = ok (step ∷ steps)
prepend_step step (err reason) = err reason

-- The loop over the recipients, with the two sets of ids met before.
unfoldable pub plan_from :
    String
    → (coworker_ids session_ids : List String) → List DirectRunRecipient
    → Result PlanRefusal (List DirectRunStepPlan)
plan_from goal coworker_ids session_ids [] = ok []
plan_from goal coworker_ids session_ids (r ∷ rest) =
    let later =
      plan_from goal (r.coworker_id ∷ coworker_ids) (r.channel_agent_session_id ∷ session_ids)
        rest in
    if includes coworker_ids r.coworker_id
    then err duplicate_coworker
    else if includes session_ids r.channel_agent_session_id
    then err duplicate_session
    else prepend_step (plan_step goal r) later

-- `goal.trim() || "Respond to the channel message"`
abbrev pub objective_of : String → String
objective_of trimmed = if trimmed == "" then "Respond to the channel message" else trimmed

abbrev pub plan_recipients :
    String → List DirectRunRecipient → Result PlanRefusal (List DirectRunStepPlan)
plan_recipients goal [] = err empty_recipients
plan_recipients goal (r ∷ rest) = plan_from goal [] [] (r ∷ rest)

-- `trim` is the method of strings.
unfoldable pub plan_direct_run_steps :
    (trim : String → String) (goal : String) (recipients : List DirectRunRecipient)
    (recursive_dispatch native_subagents : Bool)
    → Result PlanRefusal (List DirectRunStepPlan)
unfolding plan_from
plan_direct_run_steps trim goal recipients recursive_dispatch native_subagents =
    if recursive_dispatch
    then err recursive_dispatch_forbidden
    else if native_subagents
    then err native_subagent_forbidden
    else plan_recipients (objective_of (trim goal)) recipients

pub record RunActivityCounters : Type 0 where
  pub planning : ℕ
  pub running : ℕ
  pub awaiting_input : ℕ
  pub awaiting_approval : ℕ
  pub blocked_connection : ℕ
  pub cancelling : ℕ
  pub queued : ℕ

abbrev pub empty_activity : RunActivityCounters
empty_activity = record {
  planning = 0;
  running = 0;
  awaiting_input = 0;
  awaiting_approval = 0;
  blocked_connection = 0;
  cancelling = 0;
  queued = 0;
}

pub data Bucket : Type 0 where
  planning running awaiting_input awaiting_approval blocked_connection cancelling queued : Bucket

unfoldable pub activity_bucket_for_step_state : RunStepState → Option Bucket
activity_bucket_for_step_state RunStepState.queued = some Bucket.queued
activity_bucket_for_step_state RunStepState.acquiring_session = some Bucket.planning
activity_bucket_for_step_state RunStepState.running = some Bucket.running
activity_bucket_for_step_state RunStepState.awaiting_input = some Bucket.awaiting_input
activity_bucket_for_step_state RunStepState.awaiting_approval = some Bucket.awaiting_approval
activity_bucket_for_step_state RunStepState.blocked_connection = some Bucket.blocked_connection
activity_bucket_for_step_state RunStepState.cancelling = some Bucket.cancelling
activity_bucket_for_step_state RunStepState.cancelled = none
activity_bucket_for_step_state RunStepState.completed = none
activity_bucket_for_step_state RunStepState.failed = none
activity_bucket_for_step_state RunStepState.unknown = none

-- `activity[bucket] += 1`
abbrev pub count_in : Bucket → RunActivityCounters → RunActivityCounters
count_in Bucket.planning a = record a { planning = a.planning + 1 }
count_in Bucket.running a = record a { running = a.running + 1 }
count_in Bucket.awaiting_input a = record a { awaiting_input = a.awaiting_input + 1 }
count_in Bucket.awaiting_approval a = record a { awaiting_approval = a.awaiting_approval + 1 }
count_in Bucket.blocked_connection a = record a { blocked_connection = a.blocked_connection + 1 }
count_in Bucket.cancelling a = record a { cancelling = a.cancelling + 1 }
count_in Bucket.queued a = record a { queued = a.queued + 1 }

-- The variables of the loop.
pub record Tally : Type 0 where
  pub activity : RunActivityCounters
  pub terminal_completed : ℕ
  pub terminal_failed : ℕ
  pub terminal_cancelled : ℕ
  pub terminal_unknown : ℕ
  pub non_terminal : ℕ
  pub all_steps_queued : Bool

abbrev pub start : Tally
start = record {
  activity = empty_activity;
  terminal_completed = 0;
  terminal_failed = 0;
  terminal_cancelled = 0;
  terminal_unknown = 0;
  non_terminal = 0;
  all_steps_queued = true;
}

abbrev pub is_queued : RunStepState → Bool
is_queued RunStepState.queued = true
is_queued _ = false

-- The counters of a step that has no bucket.
abbrev pub count_terminal : RunStepState → Tally → Tally
count_terminal RunStepState.completed t = record t { terminal_completed = t.terminal_completed + 1 }
count_terminal RunStepState.failed t = record t { terminal_failed = t.terminal_failed + 1 }
count_terminal RunStepState.cancelled t = record t { terminal_cancelled = t.terminal_cancelled + 1 }
count_terminal RunStepState.unknown t = record t { terminal_unknown = t.terminal_unknown + 1 }
count_terminal _ t = t

-- One round of the loop.
unfoldable pub tally_step : RunStepState → Tally → Tally
unfolding activity_bucket_for_step_state
tally_step state t =
    let t' = record t {
      all_steps_queued = if is_queued state then t.all_steps_queued else false;
    } in
    elim (activity_bucket_for_step_state state) [
      | some bucket ↦ record t' {
        activity = count_in bucket t.activity;
        non_terminal = t.non_terminal + 1;
      }
      | none ↦ count_terminal state t'
    ]

unfoldable pub tally_from : Tally → List RunStepState → Tally
unfolding tally_step
tally_from t [] = t
tally_from t (state ∷ states) = tally_from (tally_step state t) states

abbrev pub lifecycle_of : Tally → RunLifecycle
lifecycle_of t =
    let count =
      t.terminal_completed + t.terminal_failed + t.terminal_cancelled + t.terminal_unknown in
    if ltb 0 t.non_terminal
    then if t.all_steps_queued then RunLifecycle.queued else RunLifecycle.active
    else if count == 0
    then RunLifecycle.queued
    else if ltb 0 t.terminal_unknown
    then RunLifecycle.partial
    else if t.terminal_completed == count
    then RunLifecycle.completed
    else if t.terminal_failed == count
    then RunLifecycle.failed
    else if t.terminal_cancelled == count
    then RunLifecycle.cancelled
    else RunLifecycle.partial

pub record RunSummary : Type 0 where
  pub lifecycle : RunLifecycle
  pub activity : RunActivityCounters

unfoldable pub aggregate_run_from_steps : List RunStepState → RunSummary
unfolding tally_from
aggregate_run_from_steps [] = record { lifecycle = RunLifecycle.queued; activity = empty_activity }
aggregate_run_from_steps (state ∷ states) =
    let t = tally_from start (state ∷ states) in
    record { lifecycle = lifecycle_of t; activity = t.activity }
