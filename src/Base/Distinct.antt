-- ===== src/Base/Distinct.antt =====
-- Lists with no element twice, as a loop with a set of the elements met before checks them.

use mathlib.Core.Path.{◌≡◌, refl}
use mathlib.Core.Logic.{◌↔◌, inl, inr}
use mathlib.Core.Bool.{Bool, true, false}
use mathlib.Core.List.{List, [], ◌∷◌, ◌++◌}
use native.Mathlib.Omega.{arith}
use forge_room.Base.Tests.{Eq, Bool-cases}
use forge_room.Base.Lists.{includes, insert_sorted, sort}
use forge_room.Base.ListLaws.{includes-insert_sorted, includes-sort, includes-append}

module _ {ℓ} {A : Type ℓ} ⦃e : Eq A⦄ where
  -- No element occurs twice.
  abbrev pub Distinct : List A → Type 0
  Distinct [] = Unit
  Distinct (x ∷ xs) = (includes xs x ≡ false) × Distinct xs

  -- Each element is new to the set `seen` and to those before it.
  abbrev pub Fresh : List A → List A → Type 0
  Fresh seen [] = Unit
  Fresh seen (x ∷ xs) = (includes seen x ≡ false) × Fresh (x ∷ seen) xs

  Fresh-apart :
      (seen xs : List A) (a : A) → Fresh seen xs → includes xs a ≡ true → includes seen a ≡ false
  Fresh-apart seen [] a f h = cc
  Fresh-apart seen (x ∷ xs) a (new, f) h =
      ground (arith, Fresh-apart (x ∷ seen) xs a f, e.same_iff x a)

  Fresh-Distinct : (seen xs : List A) → Fresh seen xs → Distinct xs
  Fresh-Distinct seen [] f = tt
  Fresh-Distinct seen (x ∷ xs) (new, f) = (
    ground (arith, Fresh-apart (x ∷ seen) xs x f, e.same_iff x x),
    Fresh-Distinct (x ∷ seen) xs f,
  )

  Distinct-Fresh :
      (seen xs : List A)
      → Distinct xs
      → ((a : A) → includes xs a ≡ true → includes seen a ≡ false)
      → Fresh seen xs
  Distinct-Fresh seen [] d apart = tt
  Distinct-Fresh seen (x ∷ xs) (new, d) apart = (
    apart x (ground (arith, e.same_iff x x)),
    Distinct-Fresh (x ∷ seen) xs d λ a m. ground (arith, apart a, e.same_iff x a),
  )

  -- From an empty set, the loop finds no repetition exactly if there is none.
  pub Fresh-iff : (xs : List A) → Fresh [] xs ↔ Distinct xs
  Fresh-iff xs = (Fresh-Distinct [] xs, λ d. Distinct-Fresh [] xs d λ a m. refl)

  Distinct-insert_sorted :
      (before : A → A → Bool) (a : A) (xs : List A)
      → includes xs a ≡ false
      → Distinct xs
      → Distinct (insert_sorted before a xs)
  Distinct-insert_sorted before a [] new d = (refl, tt)
  Distinct-insert_sorted before a (x ∷ xs) new (fresh, d) = elim (Bool-cases (before a x)) [
    | inl e' ↦ rw e' (new, (fresh, d))
    | inr e' ↦ rw e' (
      ground (arith, includes-insert_sorted before a xs x, e.same_iff a x, e.same_iff x a),
      Distinct-insert_sorted before a xs (ground arith) d,
    )
  ]

  -- Sorting keeps the elements apart.
  pub Distinct-sort :
      (before : A → A → Bool) (xs : List A) → Distinct xs → Distinct (sort before xs)
  Distinct-sort before [] d = tt
  Distinct-sort before (x ∷ xs) (new, d) =
      Distinct-insert_sorted before x (sort before xs) (rw (includes-sort before xs x) new)
        (Distinct-sort before xs d)

  -- A new element may be put at the end.
  pub Distinct-push :
      (xs : List A) (a : A) → Distinct xs → includes xs a ≡ false → Distinct (xs ++ (a ∷ []))
  Distinct-push [] a d new = (refl, tt)
  Distinct-push (x ∷ xs) a (fresh, d) new = (
    ground (arith, includes-append xs (a ∷ []) x, e.same_iff a x, e.same_iff x a),
    Distinct-push xs a d (ground arith),
  )
