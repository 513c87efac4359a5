-- ===== src/Orchestration/PauseGroup/Actions.antt =====
-- Reading and classifying a raw action, in packages/orchestration/src/pause-group.ts.
use forge_room.Base.{
  String, Bool, true, false, not, ◌||◌, Option, none, some, if◌then◌else◌, List, [], ◌∷◌, any, ◌==◌,
  string_eq,
}
use forge_room.Base.Json.{
  Json, Members, no_members, object, array, text, natural_number, other_number, boolean, null,
  lookup_member,
}

-- An object of the provider.
abbrev pub RawRequiredAction : Type 0
RawRequiredAction = Members

pub data CapturedActionType : Type 0 where
  approval question connection : CapturedActionType

abbrev pub read_safe_string : Option Json → Option String
read_safe_string (some (text s)) = if s == "" then none else some s
read_safe_string (some (object m)) = none
read_safe_string (some (array items)) = none
read_safe_string (some (natural_number n)) = none
read_safe_string (some (other_number s)) = none
read_safe_string (some (boolean b)) = none
read_safe_string (some null) = none
read_safe_string none = none

-- The first of the names whose property is a text that is not empty: a chain of `??`.
abbrev pub first_safe : RawRequiredAction → List String → Option String
first_safe raw [] = none
first_safe raw (name ∷ names) =
    let rest = first_safe raw names in
    elim (read_safe_string (lookup_member raw name)) [ none ↦ rest | some s ↦ some s ]

-- The value, unless it is `null` or missing.
abbrev pub unless_nullish : Option Json → Option Json
unless_nullish (some null) = none
unless_nullish (some (text s)) = some (text s)
unless_nullish (some (object m)) = some (object m)
unless_nullish (some (array items)) = some (array items)
unless_nullish (some (natural_number n)) = some (natural_number n)
unless_nullish (some (other_number s)) = some (other_number s)
unless_nullish (some (boolean b)) = some (boolean b)
unless_nullish none = none

abbrev pub first_present : RawRequiredAction → List String → (otherwise : Json) → Json
first_present raw [] otherwise = otherwise
first_present raw (name ∷ names) otherwise =
    let rest = first_present raw names otherwise in
    elim (unless_nullish (lookup_member raw name)) [ none ↦ rest | some value ↦ value ]

abbrev pub provider_action_id_of : RawRequiredAction → Option String
provider_action_id_of raw =
    first_safe raw
      ("id" ∷ "provider_action_id" ∷ "providerActionId" ∷ "action_id" ∷ "actionId" ∷ [])

abbrev pub tool_call_id_of : RawRequiredAction → Option String
tool_call_id_of raw = first_safe raw ("tool_call_id" ∷ "toolCallId" ∷ "call_id" ∷ "callId" ∷ [])

abbrev pub tool_name_of : RawRequiredAction → Option String
tool_name_of raw = first_safe raw ("tool_name" ∷ "toolName" ∷ "name" ∷ "tool" ∷ [])

abbrev pub arguments_of : RawRequiredAction → Json
arguments_of raw = first_present raw ("arguments" ∷ "args" ∷ "input" ∷ []) (object no_members)

abbrev pub or_else : Option String → String → String
or_else none other = other
or_else (some s) other = s

-- `lower` is `toLowerCase`, and `contains part s` is `s.includes(part)`.
module _ (lower : String → String) (contains : String → String → Bool) where
  abbrev pub type_text : RawRequiredAction → String
  type_text raw = lower (or_else (read_safe_string (lookup_member raw "type")) "")

  abbrev pub nested_thread_id : RawRequiredAction → Option String
  nested_thread_id raw =
      first_safe raw ("thread_id" ∷ "threadId" ∷ "child_thread_id" ∷ "childThreadId" ∷ [])

  -- The id of a persistent thread, if it is not empty, is compared with that of the action.
  abbrev pub is_other_thread : (persistent : Option String) → (nested : Option String) → Bool
  is_other_thread persistent none = false
  is_other_thread none (some thread) = true
  is_other_thread (some persistent) (some thread) =
      if persistent == "" then true else not (thread == persistent)

  unfoldable pub is_unexpected_child_action :
      RawRequiredAction → (persistent_thread_id : Option String) → Bool
  is_unexpected_child_action raw persistent =
      any (λ part. contains part (type_text raw)) ("subagent" ∷ "child_thread" ∷ "native_sub" ∷ [])
      || is_other_thread persistent (nested_thread_id raw)

  -- `none` is "unsupported".
  unfoldable pub classify_required_action_type : RawRequiredAction → Option CapturedActionType
  classify_required_action_type raw =
      let kind = type_text raw in
      if contains "approval" kind
        || (kind == "tool.approval_required" || kind == "approval_required")
      then some approval
      else if contains "question" kind
          || (contains "ask_user" kind
              || (kind == "tool.response_required" || kind == "input_required"))
      then some question
      else if contains "connection" kind
          || (contains "auth_required" kind
              || (contains "mcp.auth" kind || kind == "native_auth_required"))
      then some connection
      else none
