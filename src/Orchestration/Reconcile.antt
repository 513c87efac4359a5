-- ===== src/Orchestration/Reconcile.antt =====
-- packages/orchestration/src/turn-creation.ts, create-or-reconcile-turn.ts and the decision of
-- pause-resume.ts: a remote turn is created or searched for in the provider's history.
-- `hash_intent` is `hashTurnCreateIntent`, a digest of the input and the previous id, and
-- `match_token` the match of the token marker in a message.
pub mod Normal
pub mod Response
pub mod ResponseInput
pub mod ResponseHandler
pub mod Continuation
pub mod Laws
mod Examples
use forge_room.Base.{
  ℕ, String, Bool, true, false, not, Option, none, some, if◌then◌else◌, ◌==◌, string_eq, List, [],
  ◌∷◌, ◌++◌, filter, ◌&&◌, ◌||◌,
}
use forge_room.Orchestration.TurnQueue.{is_falsy}

pub data TurnInputItem : Type 0 where
  user_message : (content : String) → TurnInputItem
  tool_approval : (thread_id tool_call_id status : String) (reason : Option String) → TurnInputItem
  tool_response : (thread_id tool_call_id content : String) → TurnInputItem
  other_item : (item_type : String) → TurnInputItem

pub record TrueForgeTurn : Type 0 where
  pub id : String
  pub previous_turn_id : Option String
  pub input : List TurnInputItem

abbrev pub opt_eq : Option String → Option String → Bool
opt_eq none none = true
opt_eq (some a) (some b) = a == b
opt_eq _ _ = false

-- `previousTurnId === "none" ? null : previousTurnId`
abbrev pub expected_previous : String → Option String
expected_previous previous = if previous == "none" then none else some previous

-- `previous === null ? "none" : previous`
abbrev pub previous_input : Option String → String
previous_input none = "none"
previous_input (some p) = p

module _ (match_token : String → Option String) where
  -- The first message whose content has a marker gives the token.
  unfoldable pub extract_application_run_token_from_input : List TurnInputItem → Option String
  extract_application_run_token_from_input [] = none
  extract_application_run_token_from_input (user_message content ∷ items) =
      let rest = extract_application_run_token_from_input items in
      if is_falsy (match_token content) then rest else match_token content
  extract_application_run_token_from_input (item ∷ items) =
      extract_application_run_token_from_input items

-- A page of the history: its turns and the token of the next page.
pub record Page : Type 0 where
  pub turns : List TrueForgeTurn
  pub next_page_token : Option String

-- The reading loop, over the pages that the provider answers with; where the answers end before the
-- last page, the read has thrown.
unfoldable pub read_history : List TrueForgeTurn → List Page → Option (List TrueForgeTurn)
read_history history [] = none
read_history history (page ∷ pages) =
    let rest = read_history (history ++ page.turns) pages in
    if is_falsy page.next_page_token then some (history ++ page.turns) else rest

pub data Decision : Type 0 where
  bind_existing : TrueForgeTurn → Decision
  create_new fail_closed : Decision

-- What the handler asks of its surroundings, in order.
pub data Effect : Type 0 where
  created : Effect
  bound : (turn_id : String) → Effect
  marked_uncertain : Effect
  continued : Effect

-- `rejected`: the handler itself throws.
pub data Outcome : Type 0 where
  bound_turn : (turn_id : String) (is_new : Bool) → Outcome
  ambiguous_history create_failed rejected : Outcome

-- What a call of `bindTurn` comes to: `{ ok: true }`, `{ ok: false }`, or a rejected promise.
pub data BindAnswer : Type 0 where
  accepted refused throws : BindAnswer
