-- ===== src/Orchestration/Reconcile/Examples.antt =====
-- A create that is repeated after the history shows its turn.
use forge_room.Base.{
  true, false, String, List, [], ◌∷◌, Option, none, some, ◌≡◌, ◌↔◌, ◌⊎◌, inl, refl, filter,
}
use mathlib.Core.List.{Memᴰ}
use forge_room.Orchestration.TurnQueue.{is_falsy}
use forge_room.Orchestration.Reconcile.{
  TurnInputItem, user_message, TrueForgeTurn, Page, read_history, accepted, expected_previous,
  previous_input, extract_application_run_token_from_input,
}
use forge_room.Orchestration.Reconcile.Normal.{
  Surroundings, uncertain, matches_intent, decide_create_or_reconcile, decide_on_matches,
  match_turn_from_history,
}
use forge_room.Orchestration.Reconcile.Laws.Acts.{creations, Settled, Thrown}
use forge_room.Orchestration.Reconcile.Laws.Decide.{binds_only_match, decide}
use forge_room.Orchestration.Reconcile.Laws.Handler.{run, doubt_creates_none, bound_or_marked}
use forge_room.Base.{Bool}
use forge_room.Base.Json.{Json, null}
use forge_room.Orchestration.Reconcile.Normal.{creating}
use forge_room.Orchestration.Reconcile.ResponseInput.{PauseResumeResponseItem, approval, allow}
use forge_room.Orchestration.Reconcile.ResponseHandler.{ResumeSurroundings}
use forge_room.Orchestration.Reconcile.Continuation.{
  ContinuationSurroundings, ComponentContinuationResponse,
}
use forge_room.Orchestration.Reconcile.Laws.Protocol.{Refines, normal-Refines}
use forge_room.Orchestration.Reconcile.Laws.Resume.{
  resume, Creates, response-Refines, response_created_iff, continuation, continuation-Refines,
}

-- Every message carries the one token.
abbrev one_token : String → Option String
one_token content = some "token"

-- The digest is the previous id.
abbrev digest : List TurnInputItem → String → String
digest input previous = previous

abbrev old_turn : TrueForgeTurn
old_turn = record { id = "t1"; previous_turn_id = none; input = user_message "hello" ∷ [] }

abbrev one_page : List Page
one_page = record { turns = old_turn ∷ []; next_page_token = none } ∷ []

-- An earlier create was uncertain, and the history shows its turn.
abbrev after_doubt : Surroundings
after_doubt = record {
  lock_for_create = some uncertain;
  pages = one_page;
  bind_turn = λ id. accepted;
  create_turn = some "t2";
}

doubt_creates_none_example :
    creations (run one_token digest after_doubt "token" "none" "none" none true).1 ≡ 0
doubt_creates_none_example =
    doubt_creates_none one_token digest after_doubt "token" "none" "none" none true (inl refl)

bound_or_marked_example :
    Settled one_token digest after_doubt
      (run one_token digest after_doubt "token" "none" "none" none true)
    ⊎ ((history : List TrueForgeTurn) × (true ≡ true)
        × (read_history [] one_page ≡ some history)
        × Thrown one_token digest after_doubt
            (decide one_token digest "token" "none" "none" none history)
            (run one_token digest after_doubt "token" "none" "none" none true))
bound_or_marked_example =
    bound_or_marked one_token digest after_doubt "token" "none" "none" none true uncertain refl

abbrev one_turn : List TrueForgeTurn
one_turn = old_turn ∷ []

binds_only_match_example :
    (filter (matches_intent one_token digest "token" "none" "none") one_turn ≡ one_turn)
    × Memᴰ old_turn one_turn
    × (old_turn.previous_turn_id ≡ expected_previous "none")
    × (extract_application_run_token_from_input one_token old_turn.input ≡ some "token")
    × (digest old_turn.input (previous_input old_turn.previous_turn_id) ≡ "none")
    × ((is_falsy none ≡ true) ⊎ (none ≡ some old_turn.id))
unfolding decide_create_or_reconcile decide_on_matches matches_intent
    extract_application_run_token_from_input match_turn_from_history
binds_only_match_example =
    binds_only_match one_token digest "token" "none" "none" none one_turn old_turn refl

normal-Refines_example : Refines (run one_token digest after_doubt "token" "none" "none" none true)
normal-Refines_example = normal-Refines one_token digest after_doubt "token" "none" "none" none true

abbrev unordered : String → String → Bool
unordered a b = false

abbrev one_answer : List PauseResumeResponseItem
one_answer =
    record {
      required_action_id = "a1";
      provider_action_id = "p1";
      thread_id = "th";
      tool_call_id = "c1";
      kind = approval allow;
    }
    ∷ []

-- The history shows another turn only.
abbrev resuming : ResumeSurroundings
resuming = record {
  locked = true;
  pages = one_page;
  bind_resume_turn = λ id. true;
  create_turn = some "t2";
}

response-Refines_example : Refines (resume unordered digest resuming "t0" one_answer none true)
response-Refines_example = response-Refines unordered digest resuming "t0" one_answer none true

response_created_iff_example :
    (creations (resume unordered digest resuming "t0" one_answer none true).1 ≡ 1)
    ↔ Creates unordered digest resuming "t0" one_answer none true
response_created_iff_example =
    response_created_iff unordered digest resuming "t0" one_answer none true

-- The turn is created and bound, and its interrupt cannot be continued.
abbrev delivering : ContinuationSurroundings
delivering = record {
  lock_for_create = some creating;
  pages = [];
  bind_turn = λ id. accepted;
  create_turn = some "t3";
  on_continued = some false;
}

abbrev component_result : ComponentContinuationResponse
component_result = record {
  interrupt_id = "i1";
  tool_call_id = "c1";
  thread_id = "th";
  result_redacted = null;
}

abbrev marked_content : String → Json → String
marked_content token result = token

continuation-Refines_example :
    Refines (continuation digest delivering marked_content "token" "t0" component_result none false)
continuation-Refines_example =
    continuation-Refines digest delivering marked_content "token" "t0" component_result none false
