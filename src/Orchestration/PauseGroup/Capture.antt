-- ===== src/Orchestration/PauseGroup/Capture.antt =====
-- The capture plan of packages/orchestration/src/pause-group.ts. `redact_approval` is that of the
-- adapter and gives `none` where it throws; the message of the error is left out.
use forge_room.Base.{
  ℕ, suc, String, Bool, true, false, Option, none, some, if◌then◌else◌, List, [], ◌∷◌, any,
  includes, ltb, length, ◌==◌, string_eq, nat_eq_instance, Result, ok, err,
}
use forge_room.Base.Json.{
  Json, Members, no_members, member, Items, object, array, text, natural_number, other_number,
  boolean, null, lookup_member,
}
use forge_room.Domain.Approvals.{RiskClass, low, medium, high}
use forge_room.Orchestration.PauseGroup.Redaction.{
  ProviderTexts, redact_provider_required_action_text, hash_canonical,
}
use forge_room.Orchestration.PauseGroup.Actions.{
  RawRequiredAction, CapturedActionType, approval, question, connection, read_safe_string,
  first_safe, first_present, provider_action_id_of, tool_call_id_of, tool_name_of, arguments_of,
  or_else, is_unexpected_child_action, classify_required_action_type,
}

pub record ApprovalRedactionResult : Type 0 where
  pub observed_descriptor_hash : String
  pub risk_class : RiskClass
  pub redacted_arguments : Members
  pub arguments_hash : String
  pub redacted_target : Members
  pub target_hash : String
  pub expected_effect : String

pub record CapturedProposal : Type 0 where
  pub tool_call_id : String
  pub tool_name : String
  pub redaction : ApprovalRedactionResult
  pub artifact_revision_hash : Option String
  pub provider_idempotency_key : Option String

pub data PauseGroupCaptureAction : Type 0 where
  captured_approval :
      (provider_action_id tool_call_id tool_name : String) (payload : Json) (payload_hash : String)
      (proposal : CapturedProposal)
      → PauseGroupCaptureAction
  captured_question :
      (provider_action_id : String) (payload : Json) (payload_hash : String) (prompt : Members)
      (prompt_hash : String)
      → PauseGroupCaptureAction
  captured_connection :
      (provider_action_id : String) (payload : Json) (payload_hash : String)
      → PauseGroupCaptureAction

abbrev pub action_id : PauseGroupCaptureAction → String
action_id (captured_approval id call name payload hash proposal) = id
action_id (captured_question id payload hash prompt prompt_hash) = id
action_id (captured_connection id payload hash) = id

abbrev pub action_type : PauseGroupCaptureAction → CapturedActionType
action_type (captured_approval id call name payload hash proposal) = approval
action_type (captured_question id payload hash prompt prompt_hash) = question
action_type (captured_connection id payload hash) = connection

pub data PausedStepState : Type 0 where
  awaiting_approval awaiting_input blocked_connection : PausedStepState

pub record PauseGroupCapturePlan : Type 0 where
  pub generation : ℕ
  pub trueforge_turn_id : String
  pub actions : List PauseGroupCaptureAction
  pub run_step_state : PausedStepState
  pub rejected_child_count : ℕ

pub data PauseGroupCaptureFailure : Type 0 where
  empty_required_actions unexpected_child_only missing_provider_action_id : PauseGroupCaptureFailure
  unsupported_action : (provider_action_id action_type : String) → PauseGroupCaptureFailure
  duplicate_provider_action_id : (provider_action_id : String) → PauseGroupCaptureFailure
  approval_missing_tool : (provider_action_id : String) → PauseGroupCaptureFailure
  approval_redaction_failed : (provider_action_id : String) → PauseGroupCaptureFailure

abbrev pub risk_text : RiskClass → String
risk_text low = "low"
risk_text medium = "medium"
risk_text high = "high"

-- `...(threadId ? { threadId } : {})`
abbrev pub with_thread : Option String → Members
with_thread none = no_members
with_thread (some thread) =
    if thread == "" then no_members else member "threadId" (text thread) no_members

abbrev pub thread_of : RawRequiredAction → (persistent : Option String) → Option String
thread_of raw persistent = elim (first_safe raw ("thread_id" ∷ "threadId" ∷ [])) [
  | none ↦ persistent
  | some t ↦ some t
]

abbrev pub default_prompt : Members
default_prompt = member "prompt" (text "Additional input is required.") no_members

-- The properties of an array that is taken for a record are its items by their index.
abbrev pub prompt_record : (of_items : Items → Members) → Json → Members
prompt_record of_items (text s) = member "prompt" (text s) no_members
prompt_record of_items (object m) = m
prompt_record of_items (array items) = of_items items
prompt_record of_items (natural_number n) = default_prompt
prompt_record of_items (other_number s) = default_prompt
prompt_record of_items (boolean b) = default_prompt
prompt_record of_items null = default_prompt

pub record CaptureSurroundings : Type 0 where
  pub texts : ProviderTexts
  pub lower : String → String
  pub contains : (part : String) → String → Bool
  pub digest : Json → String
  pub of_items : Items → Members
  pub redact_approval : (tool_name : String) → (arguments : Json) → Option ApprovalRedactionResult

-- The actions that the loop pushes, and the number of those it rejects as a child's.
abbrev pub Captures : Type 0
Captures = List PauseGroupCaptureAction × ℕ

abbrev pub rejecting :
    Result PauseGroupCaptureFailure Captures → Result PauseGroupCaptureFailure Captures
rejecting (err reason) = err reason
rejecting (ok (actions, rejected)) = ok (actions, suc rejected)

abbrev pub pushing :
    PauseGroupCaptureAction
    → Result PauseGroupCaptureFailure Captures
    → Result PauseGroupCaptureFailure Captures
pushing action (err reason) = err reason
pushing action (ok (actions, rejected)) = ok (action ∷ actions, rejected)

module _ (c : CaptureSurroundings) (persistent : Option String) where
  abbrev pub approval_payload :
      RawRequiredAction → (name call : String) → ApprovalRedactionResult → Json
  approval_payload raw name call r = object (
      member "type" (text "approval") (
        member "toolName" (text name) (
          member "toolCallId" (text call) (
            member "target" (object r.redacted_target) (
              member "arguments" (object r.redacted_arguments) (
                member "expectedEffect" (text r.expected_effect) (
                  member "riskClass" (text (risk_text r.risk_class))
                    (with_thread (thread_of raw persistent)))))))))

  abbrev pub captured :
      RawRequiredAction
      → (id name call : String) → ApprovalRedactionResult
      → PauseGroupCaptureAction
  captured raw id name call r =
      let payload = approval_payload raw name call r in
      captured_approval id call name payload (hash_canonical c.texts c.digest payload) record {
        tool_call_id = call;
        tool_name = name;
        redaction = r;
        artifact_revision_hash =
            first_safe raw ("artifact_revision_hash" ∷ "artifactRevisionHash" ∷ []);
        provider_idempotency_key = first_safe raw ("idempotency_key" ∷ "idempotencyKey" ∷ []);
      }

  unfoldable pub capture_approval :
      RawRequiredAction → (id : String) → Result PauseGroupCaptureFailure PauseGroupCaptureAction
  capture_approval raw id = elim (tool_name_of raw) [
    | none ↦ err (approval_missing_tool id)
    | some name ↦ elim (c.redact_approval name (arguments_of raw)) [
      | none ↦ err (approval_redaction_failed id)
      | some r ↦ ok (captured raw id name (or_else (tool_call_id_of raw) id) r)
    ]
  ]

  abbrev pub prompt_of : RawRequiredAction → Members
  prompt_of raw = prompt_record c.of_items (
      redact_provider_required_action_text c.texts (
        first_present raw ("prompt" ∷ "question" ∷ "message" ∷ "text" ∷ [])
          (object default_prompt)))

  abbrev pub question_payload : RawRequiredAction → (id : String) → Json
  question_payload raw id = object (
      member "type" (text "question") (
        member "prompt" (object (prompt_of raw)) (
          member "toolCallId" (text (or_else (tool_call_id_of raw) id))
            (with_thread (thread_of raw persistent)))))

  unfoldable pub capture_question : RawRequiredAction → (id : String) → PauseGroupCaptureAction
  capture_question raw id =
      captured_question id (question_payload raw id)
        (hash_canonical c.texts c.digest (question_payload raw id)) (prompt_of raw)
        (hash_canonical c.texts c.digest (object (prompt_of raw)))

  abbrev pub redacted_field : RawRequiredAction → List String → (otherwise : String) → Json
  redacted_field raw names otherwise =
      redact_provider_required_action_text c.texts (text (or_else (first_safe raw names) otherwise))

  abbrev pub connection_payload : RawRequiredAction → Json
  connection_payload raw = object (
      member "type" (text "connection") (
        member "connector"
          (redacted_field raw ("connector" ∷ "provider" ∷ "toolkit" ∷ []) "unknown")
          (member "reason" (redacted_field raw ("reason" ∷ "message" ∷ []) "connection_required")
            no_members)))

  unfoldable pub capture_connection : RawRequiredAction → (id : String) → PauseGroupCaptureAction
  capture_connection raw id =
      captured_connection id (connection_payload raw)
        (hash_canonical c.texts c.digest (connection_payload raw))

  unfoldable pub capture_one :
      RawRequiredAction → (id : String) → Result PauseGroupCaptureFailure PauseGroupCaptureAction
  capture_one raw id = elim (classify_required_action_type c.lower c.contains raw) [
    | none ↦
        err
          (unsupported_action id (or_else (read_safe_string (lookup_member raw "type")) "unknown"))
    | some kind ↦ elim kind [
      | approval ↦ capture_approval raw id
      | question ↦ ok (capture_question raw id)
      | connection ↦ ok (capture_connection raw id)
    ]
  ]

  unfoldable pub capture_from :
      (seen : List String) → List RawRequiredAction → Result PauseGroupCaptureFailure Captures
  capture_from seen [] = ok ([], 0)
  capture_from seen (raw ∷ raws) =
      elim (is_unexpected_child_action c.lower c.contains raw persistent) [
        | true ↦ rejecting (capture_from seen raws)
        | false ↦ elim (provider_action_id_of raw) [
          | none ↦ err missing_provider_action_id
          | some id ↦ elim (includes seen id) [
            | true ↦ err (duplicate_provider_action_id id)
            | false ↦ elim (capture_one raw id) [
              | err reason ↦ err reason
              | ok action ↦ pushing action (capture_from (id ∷ seen) raws)
            ]
          ]
        ]
      ]

abbrev pub is_connection : CapturedActionType → Bool
is_connection approval = false
is_connection question = false
is_connection connection = true

abbrev pub is_approval : CapturedActionType → Bool
is_approval approval = true
is_approval question = false
is_approval connection = false

unfoldable pub run_step_state_for_actions : List PauseGroupCaptureAction → PausedStepState
run_step_state_for_actions actions =
    if any (λ a. is_connection (action_type a)) actions
    then blocked_connection
    else if any (λ a. is_approval (action_type a)) actions
    then awaiting_approval
    else awaiting_input

abbrev pub plan_of :
    (turn_id : String)
    → (generation : ℕ) → List PauseGroupCaptureAction × ℕ
    → Result PauseGroupCaptureFailure PauseGroupCapturePlan
plan_of turn generation ([], rejected) =
    if ltb 0 rejected then err unexpected_child_only else err empty_required_actions
plan_of turn generation (action ∷ actions, rejected) = ok record {
  generation = generation;
  trueforge_turn_id = turn;
  actions = action ∷ actions;
  run_step_state = run_step_state_for_actions (action ∷ actions);
  rejected_child_count = rejected;
}

unfoldable pub build_pause_group_capture_plan :
    CaptureSurroundings
    → (persistent : Option String) → (turn_id : String) → (generation : ℕ) → List RawRequiredAction
    → Result PauseGroupCaptureFailure PauseGroupCapturePlan
build_pause_group_capture_plan c persistent turn generation required =
    if length required == 0
    then err empty_required_actions
    else elim (capture_from c persistent [] required) [
      | err reason ↦ err reason
      | ok captures ↦ plan_of turn generation captures
    ]
