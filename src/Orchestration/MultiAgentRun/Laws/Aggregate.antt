-- ===== src/Orchestration/MultiAgentRun/Laws/Aggregate.antt =====
-- The lifecycle and the counters that a run shows of its steps.
use forge_room.Base.{
  ℕ, ◌+◌, ◌<◌, Bool, true, false, ◌≡◌, ◌≢◌, ◌↔◌, refl, arith, List, [], ◌∷◌, all, any, length, ◌&&◌,
}
use forge_room.Base.Counting.{count, count-all, count-any}
use forge_room.Domain.Transitions.Step.{RunStepState}
use forge_room.Domain.Transitions.Run.{RunLifecycle}
use forge_room.Orchestration.MultiAgentRun.{
  Tally, RunActivityCounters, start, tally_step, tally_from, lifecycle_of, aggregate_run_from_steps,
  is_queued,
}

abbrev pub is_completed : RunStepState → Bool
is_completed RunStepState.completed = true
is_completed _ = false

abbrev pub is_failed : RunStepState → Bool
is_failed RunStepState.failed = true
is_failed _ = false

abbrev pub is_cancelled : RunStepState → Bool
is_cancelled RunStepState.cancelled = true
is_cancelled _ = false

abbrev pub is_unknown : RunStepState → Bool
is_unknown RunStepState.unknown = true
is_unknown _ = false

-- The step is not over.
abbrev pub is_open : RunStepState → Bool
is_open RunStepState.completed = false
is_open RunStepState.failed = false
is_open RunStepState.cancelled = false
is_open RunStepState.unknown = false
is_open _ = true

-- The sum of the counters.
abbrev pub total : RunActivityCounters → ℕ
total a =
    a.planning + a.running + a.awaiting_input + a.awaiting_approval + a.blocked_connection
    + a.cancelling + a.queued

-- What the loop has counted over some more steps.
record Counted (t u : Tally) (states : List RunStepState) : Type 0 where
  completed : u.terminal_completed ≡ t.terminal_completed + count is_completed states
  failed : u.terminal_failed ≡ t.terminal_failed + count is_failed states
  cancelled : u.terminal_cancelled ≡ t.terminal_cancelled + count is_cancelled states
  unknown : u.terminal_unknown ≡ t.terminal_unknown + count is_unknown states
  opened : u.non_terminal ≡ t.non_terminal + count is_open states
  active : total u.activity ≡ total t.activity + count is_open states
  all_queued : u.all_steps_queued ≡ (t.all_steps_queued && all is_queued states)

step-Counted : (t : Tally) (state : RunStepState) → Counted t (tally_step state t) (state ∷ [])
unfolding tally_step
step-Counted t state = ground arith

loop-Counted : (t : Tally) (states : List RunStepState) → Counted t (tally_from t states) states
unfolding tally_from
loop-Counted t [] = ground arith
loop-Counted t (state ∷ states) =
    ground (arith, step-Counted t state, loop-Counted (tally_step state t) states)

every_state_counted :
    (states : List RunStepState)
    → count is_completed states
        + count is_failed states
        + count is_cancelled states
        + count is_unknown states
        + count is_open states
      ≡ length states
every_state_counted [] = refl
every_state_counted (state ∷ states) = ground (arith, every_state_counted states)

queued_open : (states : List RunStepState) → all is_queued states ≡ true → all is_open states ≡ true
queued_open [] h = refl
queued_open (state ∷ states) h = ground (arith, queued_open states)

-- What the lifecycle says of the steps.
pub record Describes (l : RunLifecycle) (states : List RunStepState) : Type 0 where
  pub when_queued : (l ≡ RunLifecycle.queued) ↔ (all is_queued states ≡ true)
  pub when_active :
      (l ≡ RunLifecycle.active) ↔ ((any is_open states ≡ true) × (all is_queued states ≡ false))
  pub when_completed : (l ≡ RunLifecycle.completed) ↔ (all is_completed states ≡ true)
  pub when_failed : (l ≡ RunLifecycle.failed) ↔ (all is_failed states ≡ true)
  pub when_cancelled : (l ≡ RunLifecycle.cancelled) ↔ (all is_cancelled states ≡ true)
  pub when_partial : (l ≡ RunLifecycle.partial) ↔ (
      (any is_open states ≡ false)
      × (all is_completed states ≡ false)
      × (all is_failed states ≡ false)
      × (all is_cancelled states ≡ false))

module _ (t : Tally) (states : List RunStepState) (c : Counted start t states)
    (whole : count is_completed states
        + count is_failed states
        + count is_cancelled states
        + count is_unknown states
        + count is_open states
      ≡ length states)
    (some_step : 0 < length states) where
  describes : Describes (lifecycle_of t) states
  describes =
      let q = queued_open states in
      let o = count-all is_open states in
      let n = count-any is_open states in
      let d = count-all is_completed states in
      let f = count-all is_failed states in
      let k = count-all is_cancelled states in
      record {
        when_queued = ground (arith, c, whole, q, o);
        when_active = ground (arith, c, whole, n);
        when_completed = ground (arith, c, whole, d);
        when_failed = ground (arith, c, whole, f);
        when_cancelled = ground (arith, c, whole, k);
        when_partial = ground (arith, c, whole, n, d, f, k);
      }

-- A run with steps is queued when all its steps are queued; active when some step is not over and
-- not all are queued; completed, failed or cancelled when all its steps are; and partial in every
-- other case. Each of these holds in one direction as in the other.
pub run_lifecycle_iff :
    (states : List RunStepState)
    → states ≢ []
    → Describes (aggregate_run_from_steps states).lifecycle states
unfolding aggregate_run_from_steps
run_lifecycle_iff [] h = absurd (h refl)
run_lifecycle_iff (s ∷ ss) h =
    let t = tally_from start (s ∷ ss) in
    describes t (s ∷ ss) (loop-Counted start (s ∷ ss)) (every_state_counted (s ∷ ss)) (omega arith)

-- The activity counters of a run add up to the number of its steps that are not over.
pub activity_total :
    (states : List RunStepState)
    → total (aggregate_run_from_steps states).activity ≡ count is_open states
unfolding aggregate_run_from_steps
activity_total [] = refl
activity_total (s ∷ ss) = omega (arith, (loop-Counted start (s ∷ ss)).active)
