-- ===== src/Orchestration/PauseGroup/Examples.antt =====
-- Actions that a paused turn asks for, for packages/orchestration/src/pause-group.ts.
use forge_room.Base.{true, none, some, [], ◌∷◌, ◌==◌, string_eq, ok, ◌≡◌, refl}
use forge_room.Base.Json.{no_members, member, object, text}
use forge_room.Orchestration.PauseGroup.Redaction.{
  ProviderTexts, redact_provider_required_action_text,
}
use forge_room.Orchestration.PauseGroup.Actions.{
  RawRequiredAction, is_unexpected_child_action, classify_required_action_type,
}
use forge_room.Orchestration.PauseGroup.Capture.{
  CaptureSurroundings, PauseGroupCapturePlan, awaiting_input, capture_question, capture_one,
  capture_from, run_step_state_for_actions, build_pause_group_capture_plan,
}
use forge_room.Orchestration.PauseGroup.Laws.Plan.{IsCapture, plan_captures}
use forge_room.Orchestration.PauseGroup.Laws.Redacted.{IsRedacted, redaction_hides}

abbrev plain_texts : ProviderTexts
plain_texts = record {
  normalize = λ s. s;
  ends_with = λ suffix s. s == suffix;
  redact = λ s. s;
  before = λ a b. true;
}

abbrev surroundings : CaptureSurroundings
surroundings = record {
  texts = plain_texts;
  lower = λ s. s;
  contains = λ part s. part == s;
  digest = λ v. "digest";
  of_items = λ items. no_members;
  redact_approval = λ name args. none;
}

abbrev asked : RawRequiredAction
asked =
    member "type" (text "question")
      (member "id" (text "a1") (member "prompt" (text "Which region?") no_members))

abbrev of_child : RawRequiredAction
of_child =
    member "type" (text "question")
      (member "id" (text "a2") (member "thread_id" (text "t2") no_members))

abbrev one_question : PauseGroupCapturePlan
one_question = record {
  generation = 1;
  trueforge_turn_id = "turn";
  actions = capture_question surroundings (some "t1") asked "a1" ∷ [];
  run_step_state = awaiting_input;
  rejected_child_count = 1;
}

question_planned :
    build_pause_group_capture_plan surroundings (some "t1") "turn" 1 (of_child ∷ asked ∷ [])
    ≡ ok one_question
unfolding build_pause_group_capture_plan capture_from is_unexpected_child_action capture_one
    classify_required_action_type run_step_state_for_actions capture_question
question_planned = refl

plan_captures_example : IsCapture surroundings (some "t1") (of_child ∷ asked ∷ []) one_question
plan_captures_example =
    plan_captures surroundings (some "t1") "turn" 1 (of_child ∷ asked ∷ []) one_question
      question_planned

redaction_hides_example : IsRedacted plain_texts (
    redact_provider_required_action_text plain_texts
      (object (member "apikey" (text "k") no_members)))
redaction_hides_example =
    redaction_hides plain_texts (object (member "apikey" (text "k") no_members))
