-- ===== src/Base/Counting.antt =====
-- Counting the elements that pass a test.
use Prim.Native.Nat.{ℕ, suc, ◌≤◌, ◌<◌}
use mathlib.Core.Path.{◌≡◌}
use mathlib.Core.Logic.{◌↔◌}
use mathlib.Core.Bool.{Bool, true}
use mathlib.Core.List.{List, [], ◌∷◌}
use native.Mathlib.Omega.{arith}
use forge_room.Base.Tests.{if◌then◌else◌}
use forge_room.Base.Lists.{length, all, any}

module _ {ℓ} {A : Type ℓ} (p : A → Bool) where
  abbrev pub count : List A → ℕ
  count [] = 0
  count (x ∷ xs) = let rest = count xs in if p x then suc rest else rest

  pub count-le : (xs : List A) → count xs ≤ length xs
  count-le [] = omega arith
  count-le (x ∷ xs) = ground (arith, count-le xs)

  pub count-all : (xs : List A) → (all p xs ≡ true) ↔ (count xs ≡ length xs)
  count-all [] = ground arith
  count-all (x ∷ xs) = ground (arith, count-all xs, count-le xs)

  pub count-any : (xs : List A) → (any p xs ≡ true) ↔ (0 < count xs)
  count-any [] = ground arith
  count-any (x ∷ xs) = ground (arith, count-any xs)
