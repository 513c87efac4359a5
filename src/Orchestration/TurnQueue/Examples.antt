-- ===== src/Orchestration/TurnQueue/Examples.antt =====
-- Queue items and claims of one session.
use forge_room.Base.{String, some, ◌≡◌, ◌≢◌, ◌↔◌, ◌⊎◌}
use forge_room.Orchestration.TurnQueue.{
  QueueItem, normal, correction, resolve_claim_generation_binding, bound_to,
}
use forge_room.Orchestration.TurnQueue.Laws.{claim_binds_live_iff}

abbrev first_item : QueueItem
first_item = record { priority = 0; fifo_sequence = 4 }

abbrev second_item : QueueItem
second_item = record { priority = 0; fifo_sequence = 7 }

abbrev generation : String
generation = "g1"

claim_binds_live_iff_example :
    (resolve_claim_generation_binding correction (some generation) (some generation)
      ≡ bound_to generation)
    ↔ ((some generation ≡ some generation)
        × (generation ≢ "")
        × ((correction ≡ normal) ⊎ (some generation ≡ some generation)))
claim_binds_live_iff_example =
    claim_binds_live_iff correction (some generation) (some generation) generation
