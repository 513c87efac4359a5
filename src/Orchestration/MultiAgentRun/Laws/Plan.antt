-- ===== src/Orchestration/MultiAgentRun/Laws/Plan.antt =====
-- The plan of a direct run, for packages/orchestration/src/multi-agent-run.ts.
use forge_room.Base.{
  String, Bool, true, false, ◌≡◌, ◌≢◌, ◌↔◌, refl, arith, List, [], ◌∷◌, map, includes, string_eq,
  Result, ok, err, Bool-cases, inl, inr,
}
use forge_room.Base.Distinct.{Distinct, Fresh, Fresh-iff}
use forge_room.Orchestration.MultiAgentRun.{
  DirectRunRecipient, DirectRunStepPlan, PlanRefusal, plan_step, prepend_step, plan_from,
  plan_direct_run_steps, objective_of,
}

abbrev pub coworkers_of : List DirectRunRecipient → List String
coworkers_of = map (λ r. r.coworker_id)

abbrev pub sessions_of : List DirectRunRecipient → List String
sessions_of = map (λ r. r.channel_agent_session_id)

-- The recipients are of distinct coworkers in distinct sessions.
pub record AreDistinct (recipients : List DirectRunRecipient) : Type 0 where
  pub coworkers : Distinct (coworkers_of recipients)
  pub sessions : Distinct (sessions_of recipients)

prepend_ok :
    (step : DirectRunStepPlan) (later : Result PlanRefusal (List DirectRunStepPlan))
    (steps : List DirectRunStepPlan)
    → prepend_step step later ≡ ok steps
    → (rest : List DirectRunStepPlan) × (later ≡ ok rest) × (steps ≡ step ∷ rest)
prepend_ok step (ok rest) steps h = (rest, refl, cc)
prepend_ok step (err reason) steps h = absurd (cc)

plan_from_ok :
    (goal : String) (cs ss : List String) (rs : List DirectRunRecipient)
    (steps : List DirectRunStepPlan)
    → plan_from goal cs ss rs ≡ ok steps
    → Fresh cs (map (λ r. r.coworker_id) rs)
      × Fresh ss (map (λ r. r.channel_agent_session_id) rs)
      × (steps ≡ map (plan_step goal) rs)
unfolding plan_from
plan_from_ok goal cs ss [] steps h = (tt, tt, cc)
plan_from_ok goal cs ss (r ∷ rs) steps h = elim (Bool-cases (includes cs r.coworker_id)) [
  | inl old ↦ absurd (ground arith)
  | inr new ↦ elim (Bool-cases (includes ss r.channel_agent_session_id)) [
    | inl old ↦ absurd (ground arith)
    | inr new' ↦
        let later = plan_from goal (r.coworker_id ∷ cs) (r.channel_agent_session_id ∷ ss) rs in
        let (rest, e, same) = prepend_ok (plan_step goal r) later steps (rw (new, new') at h) in
        let (fc, fs, es) =
          plan_from_ok goal (r.coworker_id ∷ cs) (r.channel_agent_session_id ∷ ss) rs rest e in
        ((new, fc), (new', fs), rw (same, es))
  ]
]

plan_from_total :
    (goal : String) (cs ss : List String) (rs : List DirectRunRecipient)
    → Fresh cs (map (λ r. r.coworker_id) rs)
    → Fresh ss (map (λ r. r.channel_agent_session_id) rs)
    → plan_from goal cs ss rs ≡ ok (map (plan_step goal) rs)
unfolding plan_from
plan_from_total goal cs ss [] f g = refl
plan_from_total goal cs ss (r ∷ rs) (new, f) (new', g) =
    rw (
      new,
      new',
      plan_from_total goal (r.coworker_id ∷ cs) (r.channel_agent_session_id ∷ ss) rs f g,
    )

-- A plan is made exactly when neither recursive dispatch nor native subagents are asked for, there
-- is a recipient, and no coworker and no session is named twice. It has one step for each
-- recipient, in their order, with the trimmed goal or the default as its objective.
pub plan_made_iff :
    (trim : String → String) (goal : String) (recipients : List DirectRunRecipient)
    (recursive native : Bool) (steps : List DirectRunStepPlan)
    → (plan_direct_run_steps trim goal recipients recursive native ≡ ok steps) ↔ (
        (recursive ≡ false)
        × (native ≡ false)
        × (recipients ≢ [])
        × AreDistinct recipients
        × (steps ≡ map (plan_step (objective_of (trim goal))) recipients))
unfolding plan_direct_run_steps
plan_made_iff trim goal rs true native steps = (λ h. absurd (cc), λ h. absurd (ground arith))
plan_made_iff trim goal rs false true steps = (λ h. absurd (cc), λ h. absurd (ground arith))
plan_made_iff trim goal [] false false steps = (λ h. absurd (cc), λ h. absurd (h.2 refl))
plan_made_iff trim goal (r ∷ rs) false false steps = (
  λ h.
      let (f, g, e) = plan_from_ok (objective_of (trim goal)) [] [] (r ∷ rs) steps h in
      (
        refl,
        refl,
        λ k. cc,
        record {
          coworkers = (Fresh-iff (coworkers_of (r ∷ rs))).0 f;
          sessions = (Fresh-iff (sessions_of (r ∷ rs))).0 g;
        },
        e,
      ),
  λ h.
      let total =
        plan_from_total (objective_of (trim goal)) [] [] (r ∷ rs)
          ((Fresh-iff (coworkers_of (r ∷ rs))).1 (h.3).coworkers)
          ((Fresh-iff (sessions_of (r ∷ rs))).1 (h.3).sessions) in
      rw (h.4) total,
)
