-- ===== src/Orchestration/ContextDelivery/Laws.antt =====
-- The delivery cursor of packages/orchestration/src/context-envelope.ts and its service.
use forge_room.Base.{
  ◌-◌, ℕ, ◌≤◌, ◌<◌, Bool, true, ◌≡◌, ◌⊎◌, arith, List, [], ◌∷◌, includes, filter, sort, leb, ltb,
  all, ◌+◌, zero, suc, refl, nat_eq_instance,
}
use forge_room.Base.ListLaws.{includes-sort}
use forge_room.Orchestration.ContextDelivery.{
  deliver_contiguous, envelope_delivered_through_sequence, TurnCreationStatus, confirmed,
  reconciled, advance_session_delivery_cursor, written, natural, next_delivery_cursor,
}

contiguous_covers :
    (low : ℕ) (xs : List ℕ) (n : ℕ) → low < n → n ≤ deliver_contiguous low xs → includes xs n ≡ true
unfolding deliver_contiguous
contiguous_covers low [] n h k = absurd (omega arith)
contiguous_covers low (x ∷ xs) n h k = ground (arith, contiguous_covers x xs n)

contiguous_grows : (low : ℕ) (xs : List ℕ) → low ≤ deliver_contiguous low xs
unfolding deliver_contiguous
contiguous_grows low [] = omega arith
contiguous_grows low (x ∷ xs) = ground (arith, contiguous_grows x xs)

includes-filter_nat :
    (p : ℕ → Bool) (xs : List ℕ) (n : ℕ) → includes (filter p xs) n ≡ true → includes xs n ≡ true
includes-filter_nat p [] n h = cc
includes-filter_nat p (x ∷ xs) n h = ground (arith, includes-filter_nat p xs n)

-- Whatever sequences an envelope holds, and in whatever order, a sequence behind the cursor and up
-- to the one that counts as delivered is among them.
pub delivered_are_included :
    (sequences : List ℕ) (cursor n : ℕ)
    → cursor < n
    → n ≤ envelope_delivered_through_sequence sequences cursor
    → includes sequences n ≡ true
unfolding envelope_delivered_through_sequence
delivered_are_included sequences cursor n h k =
    let pending = filter (λ s. ltb cursor s) sequences in
    let sorted = contiguous_covers cursor (sort leb pending) n h k in
    includes-filter_nat (λ s. ltb cursor s) sequences n
      (ground (arith, includes-sort leb pending n))

written_facts :
    (cursor next_sequence : ℕ) (sequences : List ℕ) (delivered : ℕ)
    (turn_creation : TurnCreationStatus) (m : ℕ)
    → advance_session_delivery_cursor cursor next_sequence sequences delivered turn_creation
      ≡ written (natural m)
    → ((turn_creation ≡ confirmed) ⊎ (turn_creation ≡ reconciled))
      × (cursor < m)
      × (m ≤ next_sequence - 1)
      × (m ≤ envelope_delivered_through_sequence sequences cursor)
unfolding advance_session_delivery_cursor next_delivery_cursor
written_facts cursor next_sequence sequences delivered turn_creation m h = ground arith

-- The `count` sequences behind `low`.
abbrev pub behind : (low count : ℕ) → List ℕ
behind low zero = []
behind low (suc count) = (low + 1) ∷ behind (low + 1) count

all-behind :
    (low count : ℕ) (sequences : List ℕ)
    → ((n : ℕ) → low < n → n ≤ low + count → includes sequences n ≡ true)
    → all (includes sequences) (behind low count) ≡ true
all-behind low zero sequences h = refl
all-behind low (suc count) sequences h =
    let first = h (low + 1) (omega arith) (omega arith) in
    let rest =
      all-behind (low + 1) count sequences (λ n j k. h n (omega (arith, j)) (omega (arith, k))) in
    rw (first, rest) refl

-- If the service writes a cursor, it moves it forward, within the sequences of the channel, and for
-- a turn whose creation was confirmed or reconciled; and every sequence that the cursor passes over
-- was in the envelope.
pub cursor_passes_delivered :
    (cursor next_sequence : ℕ) (sequences : List ℕ) (delivered : ℕ)
    (turn_creation : TurnCreationStatus) (m : ℕ)
    → advance_session_delivery_cursor cursor next_sequence sequences delivered turn_creation
      ≡ written (natural m)
    → ((turn_creation ≡ confirmed) ⊎ (turn_creation ≡ reconciled))
      × (cursor < m)
      × (m ≤ next_sequence - 1)
      × (all (includes sequences) (behind cursor (m - cursor)) ≡ true)
cursor_passes_delivered cursor next_sequence sequences delivered turn_creation m h =
    let (settled, forward, free, included) =
      written_facts cursor next_sequence sequences delivered turn_creation m h in
    (
      settled,
      forward,
      free,
      all-behind cursor (m - cursor) sequences (λ n j k.
          delivered_are_included sequences cursor n j (omega (arith, included, forward, k))),
    )
