-- ===== src/Orchestration/TurnQueue/Laws.antt =====
-- The order in which queued turns are claimed, and the generation that they are bound to.
use forge_room.Base.{
  ℕ, String, Bool, true, Option, none, some, ◌≡◌, ◌≢◌, ◌↔◌, ◌⊎◌, ◌<◌, arith, eq_iff,
}
use forge_room.Base.Int.{pos, is_negative}
use forge_room.Orchestration.TurnQueue.{
  TurnQueueInputType, normal, pause_group_response, correction, priority_for_input_type,
  resolve_claim_generation_binding, bound_to, QueueItem, compare_claim_order,
  session_accepts_input_while_paused,
}

-- The order of claims compares two items as negative exactly when the first has the higher
-- priority, or the same and the smaller sequence, and as zero exactly when both agree in both.
pub claim_order_lexicographic :
    (a b : QueueItem)
    → ((is_negative (compare_claim_order a b) ≡ true) ↔ (
        (b.priority < a.priority)
        ⊎ ((a.priority ≡ b.priority) × (a.fifo_sequence < b.fifo_sequence))))
      × ((compare_claim_order a b ≡ pos 0)
          ↔ ((a.priority ≡ b.priority) × (a.fifo_sequence ≡ b.fifo_sequence)))
unfolding compare_claim_order
claim_order_lexicographic a b = ground arith

-- The response to a pause group is claimed before an item of any other type, whatever the
-- sequences of the two.
pub response_claimed_first :
    (t : TurnQueueInputType) (m n : ℕ)
    → t ≢ pause_group_response
    → is_negative (
        compare_claim_order
          (record { priority = priority_for_input_type pause_group_response; fifo_sequence = m })
          (record { priority = priority_for_input_type t; fifo_sequence = n }))
      ≡ true
unfolding compare_claim_order priority_for_input_type
response_claimed_first t m n h = ground arith

-- A claim binds an item to generation `g` exactly when `g` is the live generation, is not the empty
-- text, and the item is a normal message or was already bound to `g`.
pub claim_binds_live_iff :
    (t : TurnQueueInputType) (bound current : Option String) (g : String)
    → (resolve_claim_generation_binding t bound current ≡ bound_to g)
      ↔ ((current ≡ some g) × (g ≢ "") × ((t ≡ normal) ⊎ (bound ≡ some g)))
unfolding resolve_claim_generation_binding
claim_binds_live_iff t none none g = ground (arith)
claim_binds_live_iff t (some b) none g = ground (arith)
claim_binds_live_iff t none (some c) g = ground (arith, eq_iff c "")
claim_binds_live_iff t (some b) (some c) g = ground (arith, eq_iff c "", eq_iff b "", eq_iff b c)

-- While a pause group is unresolved, a session accepts exactly that group's response and a
-- correction that is linked to it.
pub paused_accepts_iff :
    (t : TurnQueueInputType) (linked : Bool)
    → (session_accepts_input_while_paused true t linked ≡ true)
      ↔ ((t ≡ pause_group_response) ⊎ ((t ≡ correction) × (linked ≡ true)))
unfolding session_accepts_input_while_paused
paused_accepts_iff t linked = ground arith
