-- ===== src/Orchestration/Reconcile/Laws/Decide.antt =====
-- Which turn of the history the decision binds.

use forge_room.Base.{
  String, true, false, Option, none, some, string_eq, eq_iff, List, [], ◌∷◌, filter, ◌≡◌, ◌≢◌, ◌⊎◌,
  refl, arith,
}
use mathlib.Core.List.{Memᴰ}
use forge_room.Base.ListLaws.{filter_mem}
use forge_room.Orchestration.TurnQueue.{is_falsy}
use forge_room.Orchestration.Reconcile.{
  TurnInputItem, TrueForgeTurn, opt_eq, expected_previous, previous_input,
  extract_application_run_token_from_input, Decision, bind_existing, create_new,
}
use forge_room.Orchestration.Reconcile.Normal.{
  matches_intent, decide_on_matches, decide_create_or_reconcile, match_turn_from_history,
}

opt_eq_iff : (a b : Option String) → opt_eq a b ≡ true → a ≡ b
opt_eq_iff none none h = refl
opt_eq_iff none (some b) h = absurd (cc)
opt_eq_iff (some a) none h = absurd (cc)
opt_eq_iff (some a) (some b) h = ground (arith, eq_iff a b)

module _ (match_token : String → Option String) (hash_intent : List TurnInputItem → String → String)
    (run_token input_hash previous : String) (local_id : Option String) where
  on_matches_recorded :
      (matches : List TrueForgeTurn)
      → is_falsy local_id ≡ false
      → decide_on_matches match_token hash_intent local_id run_token input_hash previous matches
        ≢ create_new
  unfolding decide_on_matches
  on_matches_recorded [] h = λ e. ground arith
  on_matches_recorded (t ∷ []) h = λ e. ground arith
  on_matches_recorded (t ∷ u ∷ ts) h = λ e. cc

  pub decide_recorded :
      (history : List TrueForgeTurn)
      → is_falsy local_id ≡ false
      → decide_create_or_reconcile match_token hash_intent local_id history run_token input_hash
          previous
        ≢ create_new
  unfolding decide_create_or_reconcile
  decide_recorded history h =
      on_matches_recorded
        (filter (matches_intent match_token hash_intent run_token input_hash previous) history) h

  abbrev pub decide : List TrueForgeTurn → Decision
  decide history =
      decide_create_or_reconcile match_token hash_intent local_id history run_token input_hash
        previous

  intent_facts :
      (turn : TrueForgeTurn)
      → matches_intent match_token hash_intent run_token input_hash previous turn ≡ true
      → (turn.previous_turn_id ≡ expected_previous previous)
        × (extract_application_run_token_from_input match_token turn.input ≡ some run_token)
        × (hash_intent turn.input (previous_input turn.previous_turn_id) ≡ input_hash)
  unfolding matches_intent
  intent_facts turn h = ground (
    arith,
    opt_eq_iff turn.previous_turn_id (expected_previous previous),
    opt_eq_iff (extract_application_run_token_from_input match_token turn.input) (some run_token),
    eq_iff (hash_intent turn.input (previous_input turn.previous_turn_id)) input_hash,
  )

  single_case :
      (id : Option String)
      → local_id ≡ id
      → (t turn : TrueForgeTurn)
      → decide_on_matches match_token hash_intent local_id run_token input_hash previous (t ∷ [])
        ≡ bind_existing turn
      → (◌≡◌ {A = List TrueForgeTurn} (t ∷ []) (turn ∷ []))
        × ((is_falsy local_id ≡ true) ⊎ (local_id ≡ some turn.id))
  unfolding decide_on_matches match_turn_from_history
  single_case none e t turn h = ground arith
  single_case (some id) e t turn h = ground (arith, eq_iff t.id id)

  single :
      (matches : List TrueForgeTurn) (turn : TrueForgeTurn)
      → decide_on_matches match_token hash_intent local_id run_token input_hash previous matches
        ≡ bind_existing turn
      → (matches ≡ turn ∷ []) × ((is_falsy local_id ≡ true) ⊎ (local_id ≡ some turn.id))
  unfolding decide_on_matches match_turn_from_history
  single [] turn h = absurd (ground arith)
  single (t ∷ []) turn h = single_case local_id refl t turn h
  single (t ∷ u ∷ ts) turn h = absurd (cc)

  -- The handler decides to bind a turn of the history only if that turn is the only one with the
  -- expected predecessor, the run's token and the digest of the input, and is the one on record
  -- if one is.
  pub binds_only_match :
      (history : List TrueForgeTurn) (turn : TrueForgeTurn)
      → decide history ≡ bind_existing turn
      → (filter (matches_intent match_token hash_intent run_token input_hash previous) history
          ≡ turn ∷ [])
        × Memᴰ turn history
        × (turn.previous_turn_id ≡ expected_previous previous)
        × (extract_application_run_token_from_input match_token turn.input ≡ some run_token)
        × (hash_intent turn.input (previous_input turn.previous_turn_id) ≡ input_hash)
        × ((is_falsy local_id ≡ true) ⊎ (local_id ≡ some turn.id))
  unfolding decide_create_or_reconcile
  binds_only_match history turn h =
      let only =
        single
          (filter (matches_intent match_token hash_intent run_token input_hash previous) history)
          turn h in
      let (passed, there) =
        filter_mem (matches_intent match_token hash_intent run_token input_hash previous) history
          only.0 in
      let (p, t, k) = intent_facts turn passed in (only.0, there, p, t, k, only.1)
