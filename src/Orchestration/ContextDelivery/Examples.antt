-- ===== src/Orchestration/ContextDelivery/Examples.antt =====
-- A delivery of three sequences, one of which stands behind a gap.
use forge_room.Base.{
  ◌-◌, ◌≤◌, ◌<◌, true, ℕ, List, [], ◌∷◌, ◌≡◌, ◌⊎◌, refl, includes, all, nat_eq_instance,
}
use forge_room.Orchestration.ContextDelivery.{
  confirmed, reconciled, advance_session_delivery_cursor, next_delivery_cursor, written, natural,
  envelope_delivered_through_sequence,
}
use forge_room.Orchestration.ContextDelivery.Laws.{cursor_passes_delivered}

abbrev envelope : List ℕ
envelope = 5 ∷ 6 ∷ 9 ∷ []

-- The channel has nine events, and the envelope delivers two behind the fourth.
cursor_six : advance_session_delivery_cursor 4 10 envelope 6 confirmed ≡ written (natural 6)
unfolding advance_session_delivery_cursor next_delivery_cursor envelope_delivered_through_sequence
cursor_six = refl

cursor_passes_delivered_example :
    ((confirmed ≡ confirmed) ⊎ (confirmed ≡ reconciled))
    × (4 < 6)
    × (6 ≤ 10 - 1)
    × (all (includes envelope) (5 ∷ 6 ∷ []) ≡ true)
cursor_passes_delivered_example = cursor_passes_delivered 4 10 envelope 6 confirmed 6 cursor_six
