-- ===== src/AgUi/ToolCalls/Examples.antt =====
-- A tool call and its events, for packages/integrations/ag-ui/src/tool-call-reducer.ts.
use forge_room.Base.{none, some, if◌then◌else◌, [], ◌∷◌, ◌==◌, string_eq, ◌≡◌, refl}
use forge_room.AgUi.Lanes.{Envelope, coworker}
use forge_room.AgUi.ToolCalls.{
  ToolCallEntry, complete, ToolCalls, tool_call_start, tool_call_result,
}
use forge_room.AgUi.ToolCalls.Laws.{tool_calls_after, Carries, tool_calls_carried}

abbrev lane : Envelope
lane = record {
  channel_id = "ch";
  actor_kind = coworker;
  coworker_id = some "c1";
  logical_thread_id = some "l1";
}

abbrev finished_search : ToolCallEntry
finished_search = record {
  tool_call_id = "k1";
  tool_name = "search";
  status = complete;
  parent_message_id = none;
  owner = record { actor_kind = coworker; coworker_id = some "c1"; logical_thread_id = some "l1" };
}

abbrev one_call : ToolCalls
one_call id = if id == "k1" then some finished_search else none

tool_calls_carried_example :
    (next : ToolCallEntry) × (tool_calls_after one_call
        ((lane, tool_call_start "k1" "lookup" none) ∷ (lane, tool_call_result "k1") ∷ [])
        "k1"
      ≡ some next)
    × Carries finished_search next
tool_calls_carried_example =
    tool_calls_carried one_call
      ((lane, tool_call_start "k1" "lookup" none) ∷ (lane, tool_call_result "k1") ∷ []) "k1"
      finished_search refl
