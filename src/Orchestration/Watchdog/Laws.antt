-- ===== src/Orchestration/Watchdog/Laws.antt =====
-- Any course of operations on the watchdog of packages/orchestration/src/watchdog.ts.
use forge_room.Base.{
  ℕ, ◌+◌, ◌≤◌, String, not, Option, none, some, ◌≡◌, inl, inr, List, [], ◌∷◌, arith, length,
  string_eq, Bool-cases, Option-cases, map, any, filter,
}
use forge_room.Orchestration.Watchdog.State.{
  ApplicationWatchdogLimits, ActiveRun, Timer, run_timer, sandbox_timer, get_run, Watchdog,
  start_watchdog, finish_run, stop_all, stop, start_run, ViolationReason, exceed, same_timer,
}
use forge_room.Orchestration.Watchdog.Events.{
  observe_true_forge_event, go_off, fire, Occurrence, starts, observes, fires, finishes, stops,
  perform, perform_all,
}
use forge_room.Orchestration.Watchdog.Registry.{IsWithin, get_run-IsWithin, delete_run-AllWithin}
use forge_room.Orchestration.Watchdog.Sound.{
  IsSound, finish_run-IsSound, exceed-IsSound, start_run-IsSound,
}
use forge_room.Orchestration.Watchdog.Observe.{observe-IsSound}

-- How many operations start a run.
abbrev pub starts_of : List Occurrence → ℕ
starts_of [] = 0
starts_of (starts _ _ _ ∷ operations) = 1 + starts_of operations
starts_of (_ ∷ operations) = starts_of operations

module _ (limits : ApplicationWatchdogLimits) where
  timeout-IsSound :
      (n : ℕ) (id : String) (reason : ViolationReason) (observed limit : ℕ) (call : Option String)
      (w : Watchdog)
      → IsSound limits n w
      → IsSound limits n (exceed id reason observed limit call w)
  unfolding exceed
  timeout-IsSound n id reason observed limit call w s = elim (Option-cases (get_run id w.runs)) [
    | inl absent ↦ rw (absent, exceed) s
    | inr (run, there) ↦
        exceed-IsSound limits n id reason observed limit call run w there
          (get_run-IsWithin limits id run w.runs s.within there).unreported s.few
          (delete_run-AllWithin limits id w.runs s.within)
  ]

  fire-IsSound :
      (n : ℕ) (timer : Timer) (w : Watchdog)
      → IsSound limits n w
      → IsSound limits n (fire limits timer w)
  unfolding fire
  fire-IsSound n timer w s = elim (Bool-cases (any (same_timer timer) w.pending)) [
    | inr cleared ↦ rw (cleared, fire) s
    | inl due ↦
        let w' = record w { pending = filter (λ t. not (same_timer timer t)) w.pending } in
        rw (due, fire) (gone timer w' (record { few = s.few; within = s.within }))
  ]
    where
      gone :
          (timer : Timer) (w' : Watchdog)
          → IsSound limits n w'
          → IsSound limits n (go_off limits timer w')
      gone (run_timer id) w' s' = timeout-IsSound n id _ _ _ none w' s'
      gone (sandbox_timer id call) w' s' = timeout-IsSound n id _ _ _ (some call) w' s'

  stop_all-IsSound :
      (n : ℕ) (ids : List String) (w : Watchdog)
      → IsSound limits n w
      → IsSound limits n (stop_all ids w)
  unfolding stop_all
  stop_all-IsSound n [] w s = s
  stop_all-IsSound n (id ∷ ids) w s =
      stop_all-IsSound n ids (finish_run id w) (finish_run-IsSound limits n id w s)

  perform_all-IsSound :
      (n : ℕ) (operations : List Occurrence) (w : Watchdog)
      → IsSound limits n w
      → IsSound limits (n + starts_of operations) (perform_all limits operations w)
  unfolding perform_all perform stop
  perform_all-IsSound n [] w s = record { few = omega (arith, s.few); within = s.within }
  perform_all-IsSound n (starts id run_id step ∷ operations) w s =
      let s' =
        perform_all-IsSound (n + 1) operations (start_run id run_id step w)
          (start_run-IsSound limits n id run_id step w s) in
      record { few = omega (arith, s'.few); within = s'.within }
  perform_all-IsSound n (observes id event ∷ operations) w s =
      perform_all-IsSound n operations (observe_true_forge_event limits id event w)
        (observe-IsSound limits n id event w s)
  perform_all-IsSound n (fires timer ∷ operations) w s =
      perform_all-IsSound n operations (fire limits timer w) (fire-IsSound n timer w s)
  perform_all-IsSound n (finishes id ∷ operations) w s =
      perform_all-IsSound n operations (finish_run id w) (finish_run-IsSound limits n id w s)
  perform_all-IsSound n (stops ∷ operations) w s =
      let ids = map (λ entry. entry.0) w.runs in
      perform_all-IsSound n operations (stop_all ids w) (stop_all-IsSound n ids w s)

  module _ (operations : List Occurrence) where
    end-IsSound :
        IsSound limits (starts_of operations) (perform_all limits operations start_watchdog)
    end-IsSound =
        let s =
          perform_all-IsSound 0 operations start_watchdog
            (record { few = omega arith; within = tt }) in
        record { few = omega (arith, s.few); within = s.within }

    -- Whatever happens to a new watchdog, and in whatever order, it reports no more often than runs
    -- were started.
    pub reports_within_starts :
        length (perform_all limits operations start_watchdog).reports ≤ starts_of operations
    reports_within_starts = omega (arith, end-IsSound.few)

    -- Whatever happens to a new watchdog, a run is registered only while it was not reported and
    -- its observed tokens and tool calls keep the limits.
    pub registered_keep_limits :
        (id : String) (run : ActiveRun)
        → get_run id (perform_all limits operations start_watchdog).runs ≡ some run
        → IsWithin limits run
    registered_keep_limits id run h =
        get_run-IsWithin limits id run (perform_all limits operations start_watchdog).runs
          end-IsSound.within h
