-- ===== src/Orchestration/Watchdog/Sound.antt =====
-- Starting, reporting and ending runs, and the timers of their commands, for
-- packages/orchestration/src/watchdog.ts.
use forge_room.Base.{
  ℕ, ◌+◌, ◌≤◌, String, true, false, not, Option, some, ◌≡◌, refl, inl, inr, List, [], ◌∷◌, ◌++◌,
  arith, length, includes, ◌==◌, string_eq, Bool-cases, Option-cases, ◌||◌, filter,
}
use forge_room.Orchestration.Watchdog.State.{
  ApplicationWatchdogLimits, ActiveRun, Timer, sandbox_timer, get_run, set_run, delete_run,
  Watchdog, finish_run, start_run, ViolationReason, exceed, start_sandbox_command,
  finish_sandbox_command, violation, new_run, is_sandbox_timer,
}
use forge_room.Orchestration.Watchdog.Registry.{
  length-set_run, delete_run-set_run, length-delete_run, delete_run_absent, delete_run_shorter,
  length-append_runs, IsWithin, AllWithin, get_run-IsWithin, set_run-AllWithin,
  delete_run-AllWithin, append-AllWithin,
}

length-snoc {ℓ} : {A : Type ℓ} (xs : List A) (x : A) → length (xs ++ x ∷ []) ≡ length xs + 1
length-snoc [] x = refl
length-snoc (y ∷ xs) x = omega (arith, length-snoc xs x)

runs-finish_run : (id : String) (w : Watchdog) → (finish_run id w).runs ≡ delete_run id w.runs
unfolding finish_run
runs-finish_run id w = ground (arith, delete_run_absent id w.runs)

reports-finish_run : (id : String) (w : Watchdog) → (finish_run id w).reports ≡ w.reports
unfolding finish_run
reports-finish_run id w = ground arith

-- A registered run that was not reported is reported once, and is registered no longer.
exceed_lem :
    (id : String) (reason : ViolationReason) (observed limit : ℕ) (call : Option String)
    (run : ActiveRun) (w : Watchdog)
    → get_run id w.runs ≡ some run
    → run.exceeded ≡ false
    → ((exceed id reason observed limit call w).runs ≡ delete_run id w.runs)
      × (length (exceed id reason observed limit call w).reports ≡ length w.reports + 1)
unfolding exceed
exceed_lem id reason observed limit call run w there fresh =
    let reported = record run { exceeded = true } in
    let w' = record w { runs = set_run id reported w.runs } in
    let report = violation id run reason observed limit call in
    ground (
      arith,
      runs-finish_run id w',
      reports-finish_run id w',
      delete_run-set_run id reported w.runs,
      length-snoc (finish_run id w').reports report,
    )

module _ (limits : ApplicationWatchdogLimits) where
  -- At most `n` runs were reported or are registered, and the registered ones keep the limits.
  pub record IsSound (n : ℕ) (w : Watchdog) : Type 0 where
    pub few : length w.reports + length w.runs ≤ n
    pub within : AllWithin limits w.runs

  pub finish_run-IsSound :
      (n : ℕ) (id : String) (w : Watchdog) → IsSound n w → IsSound n (finish_run id w)
  finish_run-IsSound n id w s = record {
    few =
        rw (runs-finish_run id w, reports-finish_run id w)
          (omega (arith, s.few, length-delete_run id w.runs));
    within = rw (runs-finish_run id w) (delete_run-AllWithin limits id w.runs s.within);
  }

  -- The run may have gone over a limit since it was in the registry `before`.
  pub exceed-IsSound :
      (n : ℕ) (id : String) (reason : ViolationReason) (observed limit : ℕ) (call : Option String)
      (run : ActiveRun) (w : Watchdog)
      → get_run id w.runs ≡ some run
      → run.exceeded ≡ false
      → length w.reports + length w.runs ≤ n
      → AllWithin limits (delete_run id w.runs)
      → IsSound n (exceed id reason observed limit call w)
  exceed-IsSound n id reason observed limit call run w there fresh few within =
      let (runs, reports) = exceed_lem id reason observed limit call run w there fresh in
      record {
        few = rw (runs, reports) (omega (arith, delete_run_shorter id run w.runs there));
        within = rw runs within;
      }

  pub set_run-IsSound :
      (n : ℕ) (id : String) (run : ActiveRun) (pending : List Timer) (w : Watchdog)
      → IsWithin limits run
      → IsSound n w
      → IsSound n (record w { runs = set_run id run w.runs; pending = pending })
  set_run-IsSound n id run pending w keeps s = record {
    few = omega (arith, s.few, length-set_run id run w.runs);
    within = set_run-AllWithin limits id run w.runs keeps s.within;
  }

  pub start_run-IsSound :
      (n : ℕ) (id run_id step : String) (w : Watchdog)
      → IsSound n w
      → IsSound (n + 1) (start_run id run_id step w)
  unfolding start_run
  start_run-IsSound n id run_id step w s = elim (Option-cases (get_run id w.runs)) [
    | inr (run, there) ↦
        rw (there, start_run) (record { few = omega (arith, s.few); within = s.within })
    | inl absent ↦
        rw (absent, start_run)
          (record {
            few = omega (arith, s.few, length-append_runs w.runs (id, new_run run_id step));
            within = append-AllWithin limits w.runs id (new_run run_id step) fresh s.within;
          })
  ]
    where
      fresh : IsWithin limits (new_run run_id step)
      fresh = record { unreported = refl; tokens = omega arith; tool_calls = omega arith }

  pub start_sandbox-IsSound :
      (n : ℕ) (id call : String) (w : Watchdog)
      → IsSound n w
      → IsSound n (start_sandbox_command id call w)
  unfolding start_sandbox_command
  start_sandbox-IsSound n id call w s = elim (Option-cases (get_run id w.runs)) [
    | inl absent ↦ rw (absent, start_sandbox_command) s
    | inr (run, there) ↦
        let keeps = get_run-IsWithin limits id run w.runs s.within there in
        elim (Bool-cases (run.exceeded || includes run.sandbox_timers call)) [
          | inl known ↦ rw (there, known, start_sandbox_command) s
          | inr new ↦
              rw (there, new, start_sandbox_command)
                (set_run-IsSound n id (record run { sandbox_timers = call ∷ run.sandbox_timers })
                  (sandbox_timer id call ∷ w.pending) w
                  (record {
                    unreported = keeps.unreported;
                    tokens = keeps.tokens;
                    tool_calls = keeps.tool_calls;
                  })
                  s)
        ]
  ]

  pub finish_sandbox-IsSound :
      (n : ℕ) (id call : String) (w : Watchdog)
      → IsSound n w
      → IsSound n (finish_sandbox_command id call w)
  unfolding finish_sandbox_command
  finish_sandbox-IsSound n id call w s = elim (Option-cases (get_run id w.runs)) [
    | inl absent ↦ rw (absent, finish_sandbox_command) s
    | inr (run, there) ↦
        let keeps = get_run-IsWithin limits id run w.runs s.within there in
        elim (Bool-cases (includes run.sandbox_timers call)) [
          | inr unknown ↦ rw (there, unknown, finish_sandbox_command) s
          | inl known ↦
              rw (there, known, finish_sandbox_command)
                (set_run-IsSound n id
                  (record run { sandbox_timers = filter (λ c. not (c == call)) run.sandbox_timers })
                  (filter (λ t. not (is_sandbox_timer id call t)) w.pending) w
                  (record {
                    unreported = keeps.unreported;
                    tokens = keeps.tokens;
                    tool_calls = keeps.tool_calls;
                  })
                  s)
        ]
  ]
