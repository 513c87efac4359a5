-- ===== src/Orchestration/Watchdog/Registry.antt =====
-- The registry as a map from turns to runs, and the runs in it that keep the limits.
use forge_room.Base.{
  ◌+◌, ◌≤◌, ◌<◌, String, false, none, some, ◌≡◌, refl, inl, inr, [], ◌∷◌, ◌++◌, arith, length, ◌==◌,
  string_eq, Bool-cases,
}
use mathlib.Core.Path.{subst}
use forge_room.Orchestration.Watchdog.State.{
  ApplicationWatchdogLimits, ActiveRun, Runs, get_run, set_run, delete_run,
}

pub length-set_run :
    (id : String) (run : ActiveRun) (runs : Runs) → length (set_run id run runs) ≡ length runs
unfolding set_run
length-set_run id run [] = refl
length-set_run id run ((k, old) ∷ runs) = ground (arith, length-set_run id run runs)

pub get_run-set_run :
    (id : String) (run old : ActiveRun) (runs : Runs)
    → get_run id runs ≡ some old
    → get_run id (set_run id run runs) ≡ some run
unfolding get_run set_run
get_run-set_run id run old [] h = absurd (cc)
get_run-set_run id run old ((k, r) ∷ runs) h = ground (arith, get_run-set_run id run old runs)

pub delete_run-set_run :
    (id : String) (run : ActiveRun) (runs : Runs)
    → delete_run id (set_run id run runs) ≡ delete_run id runs
unfolding delete_run set_run
delete_run-set_run id run [] = refl
delete_run-set_run id run ((k, r) ∷ runs) = ground (arith, delete_run-set_run id run runs)

pub length-delete_run : (id : String) (runs : Runs) → length (delete_run id runs) ≤ length runs
unfolding delete_run
length-delete_run id [] = omega arith
length-delete_run id ((k, r) ∷ runs) = ground (arith, length-delete_run id runs)

pub delete_run_absent :
    (id : String) (runs : Runs) → get_run id runs ≡ none → delete_run id runs ≡ runs
unfolding get_run delete_run
delete_run_absent id [] h = refl
delete_run_absent id ((k, r) ∷ runs) h = ground (arith, delete_run_absent id runs)

pub delete_run_shorter :
    (id : String) (run : ActiveRun) (runs : Runs)
    → get_run id runs ≡ some run
    → length (delete_run id runs) < length runs
unfolding get_run delete_run
delete_run_shorter id run [] h = absurd (cc)
delete_run_shorter id run ((k, r) ∷ runs) h =
    ground (arith, delete_run_shorter id run runs, length-delete_run id runs)

pub length-append_runs :
    (xs : Runs) (entry : String × ActiveRun) → length (xs ++ entry ∷ []) ≡ length xs + 1
length-append_runs [] entry = refl
length-append_runs (x ∷ xs) entry = omega (arith, length-append_runs xs entry)

module _ (limits : ApplicationWatchdogLimits) where
  -- What the registry holds of a run: it was not reported, and it keeps the observed limits.
  pub record IsWithin (run : ActiveRun) : Type 0 where
    pub unreported : run.exceeded ≡ false
    pub tokens : run.observed_turn_tokens ≤ limits.max_observed_turn_tokens
    pub tool_calls : length run.seen_tool_call_ids ≤ limits.max_observed_tool_calls

  abbrev pub AllWithin : Runs → Type 0
  AllWithin [] = Unit
  AllWithin ((k, run) ∷ runs) = IsWithin run × AllWithin runs

  pub get_run-IsWithin :
      (id : String) (run : ActiveRun) (runs : Runs)
      → AllWithin runs
      → get_run id runs ≡ some run
      → IsWithin run
  unfolding get_run
  get_run-IsWithin id run [] a h = absurd (cc)
  get_run-IsWithin id run ((k, r) ∷ runs) (w, a) h = elim (Bool-cases (k == id)) [
    | inl here ↦ subst IsWithin (ground arith) w
    | inr later ↦ get_run-IsWithin id run runs a (ground arith)
  ]

  pub set_run-AllWithin :
      (id : String) (run : ActiveRun) (runs : Runs)
      → IsWithin run
      → AllWithin runs
      → AllWithin (set_run id run runs)
  unfolding set_run
  set_run-AllWithin id run [] w a = tt
  set_run-AllWithin id run ((k, r) ∷ runs) w (v, a) = elim (Bool-cases (k == id)) [
    | inl here ↦ rw here (w, a)
    | inr later ↦ rw later (v, set_run-AllWithin id run runs w a)
  ]

  pub delete_run-AllWithin :
      (id : String) (runs : Runs) → AllWithin runs → AllWithin (delete_run id runs)
  unfolding delete_run
  delete_run-AllWithin id [] a = tt
  delete_run-AllWithin id ((k, r) ∷ runs) (v, a) = elim (Bool-cases (k == id)) [
    | inl here ↦ rw here (delete_run-AllWithin id runs a)
    | inr later ↦ rw later (v, delete_run-AllWithin id runs a)
  ]

  pub append-AllWithin :
      (runs : Runs) (id : String) (run : ActiveRun)
      → IsWithin run
      → AllWithin runs
      → AllWithin (runs ++ (id, run) ∷ [])
  append-AllWithin [] id run w a = (w, tt)
  append-AllWithin (entry ∷ runs) id run w (v, a) = (v, append-AllWithin runs id run w a)
