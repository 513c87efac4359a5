-- ===== src/Orchestration/StopCorrection/Laws/Replay.antt =====
-- Replayed envelopes, for packages/orchestration/src/stop-correction.ts.
use forge_room.Base.{
  ℕ, Bool, true, ◌≡◌, ◌<◌, ◌≤◌, refl, arith, List, [], ◌∷◌, includes, sort, insert_sorted, leb,
  ◌||◌, ◌==◌, nat_eq_instance, map, Bool-cases, inl, inr, ◌∙◌,
}
use forge_room.Orchestration.StopCorrection.{dedupe_from, dedupe_replay_envelopes}

module _ {ℓ} {A : Type ℓ} (sequence : A → ℕ) where
  -- Sequences that do not fall, from `low` on.
  abbrev Ascending : ℕ → List A → Type 0
  Ascending low [] = Unit
  Ascending low (x ∷ xs) = (low ≤ sequence x) × Ascending (sequence x) xs

  -- Sequences that rise, above `low`.
  abbrev pub Increasing : ℕ → List A → Type 0
  Increasing low [] = Unit
  Increasing low (x ∷ xs) = (low < sequence x) × Increasing (sequence x) xs

  -- Each sequence lies above the one before it.
  abbrev pub StrictlyIncreasing : List A → Type 0
  StrictlyIncreasing [] = Unit
  StrictlyIncreasing (x ∷ xs) = Increasing (sequence x) xs

  abbrev by_sequence : A → A → Bool
  by_sequence a b = leb (sequence a) (sequence b)

  insert-Ascending :
      (low : ℕ) (x : A) (xs : List A)
      → low ≤ sequence x
      → Ascending low xs
      → Ascending low (insert_sorted by_sequence x xs)
  insert-Ascending low x [] h a = (h, tt)
  insert-Ascending low x (y ∷ ys) h (hy, a) = elim (Bool-cases (by_sequence x y)) [
    | inl first ↦ ground arith
    | inr later ↦ ground (arith, insert-Ascending (sequence y) x ys)
  ]

  sort-Ascending : (xs : List A) → Ascending 0 (sort by_sequence xs)
  sort-Ascending [] = tt
  sort-Ascending (x ∷ xs) =
      insert-Ascending 0 x (sort by_sequence xs) (omega arith) (sort-Ascending xs)

  Ascending-below : (low m : ℕ) (xs : List A) → low ≤ m → Ascending m xs → Ascending low xs
  Ascending-below low m [] h a = tt
  Ascending-below low m (x ∷ xs) h (hx, a) = (omega arith, a)

  dedupe-Increasing :
      (low : ℕ) (seen : List ℕ) (xs : List A)
      → ((n : ℕ) → includes seen n ≡ true → n ≤ low)
      → includes seen low ≡ true
      → Ascending low xs
      → Increasing low (dedupe_from sequence seen xs)
  unfolding dedupe_from
  dedupe-Increasing low seen [] below here a = tt
  dedupe-Increasing low seen (x ∷ xs) below here (h, a) =
      elim (Bool-cases (includes seen (sequence x))) [
        | inl old ↦
            rw old
              (dedupe-Increasing low seen xs below here (Ascending-below low (sequence x) xs h a))
        | inr new ↦ rw new (
          ground arith,
          dedupe-Increasing (sequence x) (sequence x ∷ seen) xs (λ n m. ground (arith, below n))
              (ground arith) a,
        )
      ]

  dedupe_sorted : (xs : List A) → Ascending 0 xs → StrictlyIncreasing (dedupe_from sequence [] xs)
  unfolding dedupe_from
  dedupe_sorted [] a = tt
  dedupe_sorted (x ∷ xs) (_, a) =
      dedupe-Increasing (sequence x) (sequence x ∷ []) xs (λ n m. ground arith) (ground arith) a

  sequences-insert :
      (x : A) (xs : List A) (n : ℕ)
      → includes (map sequence (insert_sorted by_sequence x xs)) n
        ≡ (sequence x == n || includes (map sequence xs) n)
  sequences-insert x [] n = refl
  sequences-insert x (y ∷ ys) n = ground (arith, sequences-insert x ys n)

  sequences-sort :
      (xs : List A) (n : ℕ)
      → includes (map sequence (sort by_sequence xs)) n ≡ includes (map sequence xs) n
  sequences-sort [] n = refl
  sequences-sort (x ∷ xs) n =
      ground (arith, sequences-insert x (sort by_sequence xs) n, sequences-sort xs n)

  sequences-dedupe_from :
      (seen : List ℕ) (xs : List A) (n : ℕ)
      → (includes seen n || includes (map sequence (dedupe_from sequence seen xs)) n)
        ≡ (includes seen n || includes (map sequence xs) n)
  unfolding dedupe_from
  sequences-dedupe_from seen [] n = refl
  sequences-dedupe_from seen (x ∷ xs) n =
      ground
        (arith, sequences-dedupe_from seen xs n, sequences-dedupe_from (sequence x ∷ seen) xs n)

  -- Replay emits each channel sequence once, in strictly increasing order, and emits exactly the
  -- sequences that it was given.
  pub replay_once_in_order :
      (envelopes : List A)
      → StrictlyIncreasing (dedupe_replay_envelopes sequence envelopes)
        × ((n : ℕ)
            → includes (map sequence (dedupe_replay_envelopes sequence envelopes)) n
              ≡ includes (map sequence envelopes) n)
  unfolding dedupe_replay_envelopes
  replay_once_in_order envelopes = (
    dedupe_sorted (sort by_sequence envelopes) (sort-Ascending envelopes),
    λ n. sequences-dedupe_from [] (sort by_sequence envelopes) n ∙ sequences-sort envelopes n,
  )
