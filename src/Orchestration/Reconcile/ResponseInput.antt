-- ===== src/Orchestration/Reconcile/ResponseInput.antt =====
-- packages/orchestration/src/pause-resume.ts: the input of a response-only turn. `before` is the
-- order of `localeCompare`. The digests of the input are left out.
use forge_room.Base.{
  String, Bool, Option, none, string_eq, List, [], ◌∷◌, map, sort, Result, ok, err, ◌>>=◌,
}
use forge_room.Orchestration.Reconcile.{
  TurnInputItem, user_message, tool_approval, tool_response, other_item,
}

pub data ApprovalAnswer : Type 0 where
  allow : ApprovalAnswer
  deny : (reason : Option String) → ApprovalAnswer

pub data ResponseKind : Type 0 where
  approval : ApprovalAnswer → ResponseKind
  question : (content : String) → ResponseKind

pub record PauseResumeResponseItem : Type 0 where
  pub required_action_id : String
  pub provider_action_id : String
  pub thread_id : String
  pub tool_call_id : String
  pub kind : ResponseKind

pub data InputError : Type 0 where
  requires_response includes_user_message unsupported_item : InputError

unfoldable pub response_item : PauseResumeResponseItem → TurnInputItem
response_item item = elim item.kind [
  | approval allow ↦ tool_approval item.thread_id item.tool_call_id "allow" none
  | approval (deny reason) ↦ tool_approval item.thread_id item.tool_call_id "deny" reason
  | question content ↦ tool_response item.thread_id item.tool_call_id content
]

unfoldable pub assert_response_only_no_normal_message :
    List TurnInputItem → Result InputError (Unit {0})
assert_response_only_no_normal_message [] = ok tt
assert_response_only_no_normal_message (user_message content ∷ items) = err includes_user_message
assert_response_only_no_normal_message (other_item item_type ∷ items) = err unsupported_item
assert_response_only_no_normal_message (item ∷ items) = assert_response_only_no_normal_message items

abbrev pub by_required_action :
    (before : String → String → Bool) → PauseResumeResponseItem → PauseResumeResponseItem → Bool
by_required_action before a b = before a.required_action_id b.required_action_id

module _ (before : String → String → Bool) where
  unfoldable pub ordered_responses : List PauseResumeResponseItem → List PauseResumeResponseItem
  ordered_responses responses = sort (by_required_action before) responses

  unfoldable pub build_response_only_turn_input :
      List PauseResumeResponseItem → Result InputError (List TurnInputItem)
  unfolding ordered_responses
  build_response_only_turn_input [] = err requires_response
  build_response_only_turn_input (r ∷ rs) = do
    let input = map response_item (ordered_responses (r ∷ rs))
    checked ← assert_response_only_no_normal_message input
    ok input
