-- ===== src/Orchestration/Watchdog/State.antt =====
-- packages/orchestration/src/watchdog.ts: the registry of watched runs, its timers and its reports.
-- A pending timer is named by what it was set for.
use forge_room.Base.{
  ℕ, String, Bool, true, false, not, Option, none, some, if◌then◌else◌, ◌==◌, string_eq, List, [],
  ◌∷◌, ◌++◌, includes, filter, map, ◌&&◌, ◌||◌,
}

pub record ApplicationWatchdogLimits : Type 0 where
  pub run_ms : ℕ
  pub max_observed_turn_tokens : ℕ
  pub max_observed_tool_calls : ℕ
  pub sandbox_command_ms : ℕ

abbrev pub p0_application_watchdog_limits : ApplicationWatchdogLimits
p0_application_watchdog_limits = record {
  run_ms = 180000;
  max_observed_turn_tokens = 12000;
  max_observed_tool_calls = 20;
  sandbox_command_ms = 60000;
}

pub data ViolationReason : Type 0 where
  run_timeout observed_token_limit observed_tool_call_limit sandbox_command_timeout :
      ViolationReason

pub record ApplicationWatchdogViolation : Type 0 where
  pub agent_turn_id : String
  pub run_id : String
  pub run_step_id : String
  pub reason : ViolationReason
  pub observed : ℕ
  pub limit : ℕ
  pub enforcement : String
  pub provider_hard_limit : Bool
  pub sandbox_tool_call_id : Option String

pub record ActiveRun : Type 0 where
  pub run_id : String
  pub run_step_id : String
  pub observed_turn_tokens : ℕ
  pub seen_tool_call_ids : List String
  pub sandbox_timers : List String
  pub exceeded : Bool

pub data Timer : Type 0 where
  run_timer : (agent_turn_id : String) → Timer
  sandbox_timer : (agent_turn_id tool_call_id : String) → Timer

abbrev pub same_timer : Timer → Timer → Bool
same_timer (run_timer a) (run_timer b) = a == b
same_timer (sandbox_timer a c) (sandbox_timer b d) = a == b && c == d
same_timer _ _ = false

-- A `Map` from turns to runs.
abbrev pub Runs : Type 0
Runs = List (String × ActiveRun)

unfoldable pub get_run : String → Runs → Option ActiveRun
get_run id [] = none
get_run id ((k, run) ∷ runs) = let rest = get_run id runs in if k == id then some run else rest

-- The write to a registered run; an absent key is left absent.
unfoldable pub set_run : String → ActiveRun → Runs → Runs
set_run id run [] = []
set_run id run ((k, old) ∷ runs) =
    let rest = set_run id run runs in if k == id then (k, run) ∷ runs else (k, old) ∷ rest

unfoldable pub delete_run : String → Runs → Runs
delete_run id [] = []
delete_run id ((k, run) ∷ runs) =
    let rest = delete_run id runs in if k == id then rest else (k, run) ∷ rest

pub record Watchdog : Type 0 where
  pub runs : Runs
  pub pending : List Timer
  pub reports : List ApplicationWatchdogViolation

abbrev pub start_watchdog : Watchdog
start_watchdog = record { runs = []; pending = []; reports = [] }

-- The timers that the end of a run clears.
abbrev pub is_timer_of : String → ActiveRun → Timer → Bool
is_timer_of id run (run_timer turn) = turn == id
is_timer_of id run (sandbox_timer turn call) = turn == id && includes run.sandbox_timers call

unfoldable pub finish_run : String → Watchdog → Watchdog
finish_run id w = elim (get_run id w.runs) [
  | none ↦ w
  | some run ↦ record w {
    runs = delete_run id w.runs;
    pending = filter (λ t. not (is_timer_of id run t)) w.pending;
  }
]

unfoldable pub stop_all : List String → Watchdog → Watchdog
stop_all [] w = w
stop_all (id ∷ ids) w = stop_all ids (finish_run id w)

unfoldable pub stop : Watchdog → Watchdog
stop w = stop_all (map (λ entry. entry.0) w.runs) w

abbrev pub new_run : (run_id run_step_id : String) → ActiveRun
new_run run_id run_step_id = record {
  run_id = run_id;
  run_step_id = run_step_id;
  observed_turn_tokens = 0;
  seen_tool_call_ids = [];
  sandbox_timers = [];
  exceeded = false;
}

unfoldable pub start_run : (agent_turn_id run_id run_step_id : String) → Watchdog → Watchdog
start_run id run_id run_step_id w = elim (get_run id w.runs) [
  | some run ↦ w
  | none ↦ record w {
    runs = w.runs ++ (id, new_run run_id run_step_id) ∷ [];
    pending = run_timer id ∷ w.pending;
  }
]

-- The report of a run that went over a limit.
abbrev pub violation :
    String
    → ActiveRun
    → ViolationReason
    → (observed limit : ℕ) → Option String
    → ApplicationWatchdogViolation
violation id run reason observed limit call = record {
  agent_turn_id = id;
  run_id = run.run_id;
  run_step_id = run.run_step_id;
  reason = reason;
  observed = observed;
  limit = limit;
  enforcement = "application_cancel";
  provider_hard_limit = false;
  sandbox_tool_call_id = call;
}

unfoldable pub exceed :
    String → ViolationReason → (observed limit : ℕ) → Option String → Watchdog → Watchdog
exceed id reason observed limit call w = elim (get_run id w.runs) [
  | none ↦ w
  | some run ↦
      if run.exceeded
      then w
      else let w' =
          finish_run id (record w { runs = set_run id (record run { exceeded = true }) w.runs }) in
        record w' { reports = w'.reports ++ violation id run reason observed limit call ∷ [] }
]

unfoldable pub start_sandbox_command : String → (tool_call_id : String) → Watchdog → Watchdog
start_sandbox_command id call w = elim (get_run id w.runs) [
  | none ↦ w
  | some run ↦ if run.exceeded || includes run.sandbox_timers call then w else record w {
    runs = set_run id (record run { sandbox_timers = call ∷ run.sandbox_timers }) w.runs;
    pending = sandbox_timer id call ∷ w.pending;
  }
]

-- The handle of the one sandbox timer of a call.
abbrev pub is_sandbox_timer : String → String → Timer → Bool
is_sandbox_timer id call (run_timer turn) = false
is_sandbox_timer id call (sandbox_timer turn c) = turn == id && c == call

unfoldable pub finish_sandbox_command : String → (tool_call_id : String) → Watchdog → Watchdog
finish_sandbox_command id call w = elim (get_run id w.runs) [
  | none ↦ w
  | some run ↦ if not (includes run.sandbox_timers call) then w else record w {
    runs =
        set_run id
          (record run { sandbox_timers = filter (λ c. not (c == call)) run.sandbox_timers }) w.runs;
    pending = filter (λ t. not (is_sandbox_timer id call t)) w.pending;
  }
]
