-- ===== src/Orchestration/Reconcile/Laws/Handler.antt =====
-- The handler of packages/orchestration/src/create-or-reconcile-turn.ts.
use mathlib.Core.Path.{subst}
use forge_room.Base.{
  String, Bool, true, false, not, Option, none, some, string_eq, List, [], ◌∷◌, ◌||◌, ◌≡◌, ◌≢◌, ◌⊎◌,
  inl, inr, refl, arith, Bool-cases, ◌≤◌, Option-cases, sym,
}
use forge_room.Orchestration.TurnQueue.{is_falsy}
use forge_room.Orchestration.Reconcile.{
  TurnInputItem, TrueForgeTurn, read_history, Decision, Effect, marked_uncertain, Outcome,
  create_failed, bind_existing,
}
use forge_room.Orchestration.Reconcile.Normal.{
  LockState, uncertain, Surroundings, act_on_decision, create_or_reconcile_turn,
  decide_create_or_reconcile, decide_on_matches,
}
use forge_room.Orchestration.Reconcile.Laws.Acts.{creations, act_once, Settled, Thrown, act-Settled}
use forge_room.Orchestration.Reconcile.Laws.Decide.{decide, decide_recorded}

module _ (match_token : String → Option String) (hash_intent : List TurnInputItem → String → String)
    (s : Surroundings) (run_token input_hash previous : String) (local_id : Option String)
    (force : Bool) where
  abbrev decision : List TrueForgeTurn → Decision
  decision = decide match_token hash_intent run_token input_hash previous local_id

  abbrev pub run : Outcome × List Effect
  run =
      create_or_reconcile_turn match_token hash_intent s run_token input_hash previous local_id
        force

  creation_bounds :
      (creations run.1 ≤ 1)
      × ((force ≡ true) ⊎ (s.lock_for_create ≡ some uncertain) ⊎ (is_falsy local_id ≡ false)
          → creations run.1 ≡ 0)
  unfolding create_or_reconcile_turn
  creation_bounds = locked s.lock_for_create refl
    where
      locked :
          (lock : Option LockState)
          → s.lock_for_create ≡ lock
          → (creations run.1 ≤ 1)
            × ((force ≡ true) ⊎ (s.lock_for_create ≡ some uncertain) ⊎ (is_falsy local_id ≡ false)
                → creations run.1 ≡ 0)
      locked none e = ground arith
      locked (some state) e = elim (Option-cases (read_history [] s.pages)) [
        | inl unread ↦ ground (
          arith,
          act_once match_token hash_intent s state force (decision []),
          decide_recorded match_token hash_intent run_token input_hash previous local_id [],
        )
        | inr (history, read) ↦ ground (
          arith,
          act_once match_token hash_intent s state force (decision []),
          decide_recorded match_token hash_intent run_token input_hash previous local_id [],
          act_once match_token hash_intent s state force (decision history),
          decide_recorded match_token hash_intent run_token input_hash previous local_id history,
        )
      ]

  -- The handler asks for at most one new remote turn.
  pub creates_once : creations run.1 ≤ 1
  creates_once = creation_bounds.0

  -- The handler asks for no new remote turn when it is told to reconcile, when the lock reports
  -- an earlier uncertain create, or when a remote turn is on record.
  pub doubt_creates_none :
      (force ≡ true) ⊎ (s.lock_for_create ≡ some uncertain) ⊎ (is_falsy local_id ≡ false)
      → creations run.1 ≡ 0
  doubt_creates_none = creation_bounds.1

  abbrev looks : Bool
  looks = force || not (is_falsy local_id)

  run_first :
      (state : LockState)
      → s.lock_for_create ≡ some state
      → looks ≡ false
      → run ≡ act_on_decision match_token hash_intent s state force (decision [])
  unfolding create_or_reconcile_turn
  run_first state e h = ground arith

  run_unread :
      (state : LockState)
      → s.lock_for_create ≡ some state
      → looks ≡ true
      → read_history [] s.pages ≡ none
      → run ≡ (create_failed, marked_uncertain ∷ [])
  unfolding create_or_reconcile_turn
  run_unread state e h r = ground arith

  run_read :
      (state : LockState) (history : List TrueForgeTurn)
      → s.lock_for_create ≡ some state
      → looks ≡ true
      → read_history [] s.pages ≡ some history
      → run ≡ act_on_decision match_token hash_intent s state force (decision history)
  unfolding create_or_reconcile_turn
  run_read state history e h r = ground arith

  -- Without a history, the decision is not to bind.
  none_bound : (turn : TrueForgeTurn) → decision [] ≢ bind_existing turn
  unfolding decide_create_or_reconcile decide_on_matches
  none_bound turn h = ground arith

  -- Once the lock is held, the handler either reports the turn that it bound last, or marks the turn
  -- as uncertain and reports a failure; only where it looked into the history and decided to bind a
  -- turn of it, and `bindTurn` throws on that turn, it throws too, with nothing marked.
  pub bound_or_marked :
      (state : LockState)
      → s.lock_for_create ≡ some state
      → Settled match_token hash_intent s run
        ⊎ ((history : List TrueForgeTurn) × (looks ≡ true)
            × (read_history [] s.pages ≡ some history)
            × Thrown match_token hash_intent s (decision history) run)
  bound_or_marked state e = elim (Bool-cases looks) [
    | inr first ↦ elim (act-Settled match_token hash_intent s state force (decision [])) [
      | inl settled ↦
          inl (subst (Settled match_token hash_intent s) (sym (run_first state e first)) settled)
      | inr (turn, binds, _, _, _) ↦ absurd (none_bound turn binds)
    ]
    | inl reads ↦ elim (Option-cases (read_history [] s.pages)) [
      | inl unread ↦ inl (
          subst (Settled match_token hash_intent s) (sym (run_unread state e reads unread))
            (inr (inr refl, refl)))
      | inr (history, read) ↦
          let back = sym (run_read state history e reads read) in
          elim (act-Settled match_token hash_intent s state force (decision history)) [
            | inl settled ↦ inl (subst (Settled match_token hash_intent s) back settled)
            | inr threw ↦ inr (
              history,
              reads,
              read,
              subst (Thrown match_token hash_intent s (decision history)) back threw,
            )
          ]
    ]
  ]
