-- ===== src/AgUi/ToolCalls.antt =====
-- packages/integrations/ag-ui/src/tool-call-reducer.ts.
pub mod Laws
mod Examples
use forge_room.Base.{String, Bool, true, false, not, ◌&&◌, Option, none, some, if◌then◌else◌}
use forge_room.AgUi.Lanes.{
  Envelope, ActivityLaneOwner, truthy, owner_from_envelope, same_owner, put,
}

pub data ToolCallStatus : Type 0 where
  running complete : ToolCallStatus

pub record ToolCallEntry : Type 0 where
  pub tool_call_id : String
  pub tool_name : String
  pub status : ToolCallStatus
  pub parent_message_id : Option String
  pub owner : ActivityLaneOwner

-- The entries by the id of their call.
abbrev pub ToolCalls : Type 0
ToolCalls = String → Option ToolCallEntry

abbrev pub no_tool_calls : ToolCalls
no_tool_calls id = none

pub data ToolCallEvent : Type 0 where
  tool_call_start : (id name : String) (parent_message_id : Option String) → ToolCallEvent
  tool_call_args tool_call_end tool_call_result : (id : String) → ToolCallEvent
  other_event : ToolCallEvent

abbrev pub id_of : ToolCallEvent → String
id_of (tool_call_start id name parent) = id
id_of (tool_call_args id) = id
id_of (tool_call_end id) = id
id_of (tool_call_result id) = id
id_of other_event = ""

abbrev pub first_truthy : Option String → Option String → Option String
first_truthy first second = elim (truthy first) [ none ↦ truthy second | some s ↦ some s ]

-- The entry after the start of a call.
unfoldable pub started :
    Option ToolCallEntry
    → ActivityLaneOwner
    → (id name : String) → (parent : Option String) → Option ToolCallEntry
started none owner id name parent = some record {
  tool_call_id = id;
  tool_name = name;
  status = running;
  parent_message_id = truthy parent;
  owner = owner;
}
started (some prior) owner id name parent =
    if not (same_owner prior.owner owner)
    then none
    else some record {
      tool_call_id = id;
      tool_name = name;
      status = prior.status;
      parent_message_id = first_truthy parent prior.parent_message_id;
      owner = owner;
    }

-- The entry after the arguments (`ends` is false) or the end of a call.
unfoldable pub continued :
    Option ToolCallEntry → ActivityLaneOwner → (ends : Bool) → Option ToolCallEntry
continued none owner ends = none
continued (some prior) owner ends =
    if not (same_owner prior.owner owner)
    then none
    else some (record prior { status = if ends then complete else prior.status })

-- The entry after the result of a call.
unfoldable pub resulted :
    Option ToolCallEntry → ActivityLaneOwner → (id : String) → Option ToolCallEntry
resulted none owner id = some record {
  tool_call_id = id;
  tool_name = "Tool";
  status = complete;
  parent_message_id = none;
  owner = owner;
}
resulted (some prior) owner id =
    if not (same_owner prior.owner owner)
    then none
    else some record {
      tool_call_id = id;
      tool_name = prior.tool_name;
      status = complete;
      parent_message_id = truthy prior.parent_message_id;
      owner = prior.owner;
    }

-- The new entry at the event's id; `none` where the state is returned as it is.
unfoldable pub entry_after :
    Option ToolCallEntry → ActivityLaneOwner → ToolCallEvent → Option ToolCallEntry
entry_after prior owner (tool_call_start id name parent) = started prior owner id name parent
entry_after prior owner (tool_call_args id) = continued prior owner false
entry_after prior owner (tool_call_end id) = continued prior owner true
entry_after prior owner (tool_call_result id) = resulted prior owner id
entry_after prior owner other_event = none

unfoldable pub reduce_tool_call_presentation_state :
    ToolCalls → Envelope → ToolCallEvent → ToolCalls
reduce_tool_call_presentation_state state e event =
    elim (entry_after (state (id_of event)) (owner_from_envelope e) event) [
      | none ↦ state
      | some entry ↦ put state (id_of event) (some entry)
    ]
