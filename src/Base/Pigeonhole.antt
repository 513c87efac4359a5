-- ===== src/Base/Pigeonhole.antt =====
-- A list with no repetition inside another of the same length covers it.
use Prim.Native.Nat.{suc, ◌≤◌}
use mathlib.Core.Path.{◌≡◌}
use mathlib.Core.Logic.{inl, inr}
use mathlib.Core.Bool.{true, false}
use mathlib.Core.List.{List, [], ◌∷◌}
use native.Mathlib.Omega.{arith}
use forge_room.Base.Tests.{Eq, ◌==◌, if◌then◌else◌, Bool-cases}
use forge_room.Base.Lists.{includes, length}
use forge_room.Base.Distinct.{Distinct}

module _ {ℓ} {A : Type ℓ} ⦃e : Eq A⦄ where
  abbrev pub Within : List A → List A → Type ℓ
  Within xs ys = (a : A) → includes xs a ≡ true → includes ys a ≡ true

  -- The list without the first occurrence of `a`.
  abbrev without : A → List A → List A
  without a [] = []
  without a (x ∷ xs) = let rest = without a xs in if x == a then xs else x ∷ rest

  length-without :
      (a : A) (xs : List A) → includes xs a ≡ true → suc (length (without a xs)) ≡ length xs
  length-without a [] h = absurd (cc)
  length-without a (x ∷ xs) h = ground (arith, length-without a xs)

  includes-without :
      (a b : A) (xs : List A)
      → includes xs b ≡ true
      → (a == b) ≡ false
      → includes (without a xs) b ≡ true
  includes-without a b [] h d = absurd (cc)
  includes-without a b (x ∷ xs) h d =
      ground (arith, includes-without a b xs, e.same_iff x a, e.same_iff x b, e.same_iff a b)

  -- No repetition in `xs`, and all of it in `ys`: it is no longer.
  pub Distinct-length : (xs ys : List A) → Distinct xs → Within xs ys → length xs ≤ length ys
  Distinct-length [] ys d w = omega arith
  Distinct-length (x ∷ xs) ys (new, d) w =
      let here = w x (ground (arith, e.same_iff x x)) in
      let shorter =
        Distinct-length xs (without x ys) d
          λ a m. includes-without x a ys (w a (ground arith)) (apart a m) in
      omega (arith, shorter, length-without x ys here)
    where
      apart : (a : A) → includes xs a ≡ true → (x == a) ≡ false
      apart a m = elim (Bool-cases (x == a)) [
        | inl same ↦ absurd (ground (arith, e.same_iff x a))
        | inr other ↦ other
      ]

  pub Distinct-covers :
      (xs ys : List A) → Distinct xs → Within xs ys → length ys ≤ length xs → Within ys xs
  Distinct-covers xs ys d w h a m = elim (Bool-cases (includes xs a)) [
    | inl there ↦ there
    | inr missing ↦ absurd (
        omega (
          arith,
          Distinct-length (a ∷ xs) ys (missing, d) λ b k. ground (arith, w b, e.same_iff a b),
        ))
  ]
