-- ===== src/Base/ListLaws.antt =====
-- Laws of the array methods.

use Prim.Native.Nat.{suc, ◌+◌}
use mathlib.Core.Path.{◌≡◌, refl, ap}
use mathlib.Core.Logic.{inl, inr}
use mathlib.Core.Bool.{Bool, true, false, ◌&&◌, ◌||◌}
use mathlib.Core.List.{List, [], ◌∷◌, ◌++◌, Memᴰ, map}
use native.Mathlib.Omega.{arith}
use forge_room.Base.Tests.{Eq, ◌==◌, Bool-cases}
use forge_room.Base.Lists.{length, filter, any, includes, unique_from, unique, insert_sorted, sort}

pub or_false : (a b : Bool) → (a || b) ≡ false → (a ≡ false) × (b ≡ false)
or_false a b h = ground arith

module _ {ℓ} {A : Type ℓ} where
  pub filter-append :
      (p : A → Bool) (xs ys : List A) → filter p (xs ++ ys) ≡ filter p xs ++ filter p ys
  filter-append p [] ys = refl
  filter-append p (x ∷ xs) ys = ground (arith, filter-append p xs ys)

  pub any-append : (p : A → Bool) (xs ys : List A) → any p (xs ++ ys) ≡ (any p xs || any p ys)
  any-append p [] ys = refl
  any-append p (x ∷ xs) ys = ground (arith, any-append p xs ys)

  -- An element on which `some` succeeded, with its place.
  pub any_witness :
      (p : A → Bool) (xs : List A) → any p xs ≡ true → (x : A) × Memᴰ x xs × (p x ≡ true)
  any_witness p [] h = absurd (cc)
  any_witness p (x ∷ xs) h = elim (Bool-cases (p x)) [
    | inl yes_x ↦ (x, Memᴰ.head refl, yes_x)
    | inr no_x ↦ let (y, m, q) = any_witness p xs (ground arith) in (y, Memᴰ.tail m, q)
  ]

  pub any-filter : (p q : A → Bool) (xs : List A) → any q (filter p xs) ≡ any (λ x. p x && q x) xs
  any-filter p q [] = refl
  any-filter p q (x ∷ xs) = ground (arith, any-filter p q xs)

module _ {ℓ} {A : Type ℓ} ⦃e : Eq A⦄ where
  pub eq_self : (a : A) → (a == a) ≡ true
  eq_self a = (e.same_iff a a).1 refl

  pub eq_sym : (a b : A) → (a == b) ≡ (b == a)
  eq_sym a b = ground (arith, e.same_iff a b, e.same_iff b a)

  pub includes-append :
      (xs ys : List A) (a : A) → includes (xs ++ ys) a ≡ (includes xs a || includes ys a)
  includes-append [] ys a = refl
  includes-append (x ∷ xs) ys a = ground (arith, includes-append xs ys a)

  pub includes-insert_sorted :
      (before : A → A → Bool) (x : A) (xs : List A) (a : A)
      → includes (insert_sorted before x xs) a ≡ (x == a || includes xs a)
  includes-insert_sorted before x [] a = refl
  includes-insert_sorted before x (y ∷ xs) a = ground (arith, includes-insert_sorted before x xs a)

  -- Sorting keeps the members.
  pub includes-sort :
      (before : A → A → Bool) (xs : List A) (a : A) → includes (sort before xs) a ≡ includes xs a
  includes-sort before [] a = refl
  includes-sort before (x ∷ xs) a =
      ground (arith, includes-insert_sorted before x (sort before xs) a, includes-sort before xs a)

  includes-unique_from :
      (seen xs : List A) (a : A)
      → (includes seen a || includes (unique_from seen xs) a) ≡ (includes seen a || includes xs a)
  includes-unique_from seen [] a = refl
  includes-unique_from seen (x ∷ xs) a =
      ground (
        arith,
        includes-unique_from seen xs a,
        includes-unique_from (x ∷ seen) xs a,
        e.same_iff x a,
      )

  -- A set has the members of the array that it was made of.
  pub includes-unique : (xs : List A) (a : A) → includes (unique xs) a ≡ includes xs a
  includes-unique xs a = includes-unique_from [] xs a

-- An element of a filtered list passed the test, and was there before.
pub filter_mem {ℓ} :
    {A : Type ℓ} (p : A → Bool) (xs : List A) {x : A} {rest : List A}
    → filter p xs ≡ x ∷ rest
    → (p x ≡ true) × Memᴰ x xs
filter_mem p [] h = absurd (cc)
filter_mem p (y ∷ xs) {x} {rest} h = elim (Bool-cases (p y)) [
  | inl kept ↦ (ground arith, Memᴰ.head (ground arith))
  | inr dropped ↦
      let (passed, m) = filter_mem p xs {x = x} {rest = rest} (ground arith) in
      (passed, Memᴰ.tail m)
]

module _ {ℓ} {A : Type ℓ} (before : A → A → Bool) where
  length-insert_sorted :
      (a : A) (xs : List A) → length (insert_sorted before a xs) ≡ suc (length xs)
  length-insert_sorted a [] = refl
  length-insert_sorted a (x ∷ xs) = ground (arith, length-insert_sorted a xs)

  -- Sorting keeps the number of elements.
  pub length-sort : (xs : List A) → length (sort before xs) ≡ length xs
  length-sort [] = refl
  length-sort (x ∷ xs) = ground (arith, length-insert_sorted x (sort before xs), length-sort xs)

module _ {ℓ κ} {A : Type ℓ} {B : Type κ} (f : A → B) (before : B → B → Bool) where
  map-insert_sorted :
      (a : A) (xs : List A)
      → map f (insert_sorted (λ x y. before (f x) (f y)) a xs)
        ≡ insert_sorted before (f a) (map f xs)
  map-insert_sorted a [] = refl
  map-insert_sorted a (x ∷ xs) = elim (Bool-cases (before (f a) (f x))) [
    | inl e ↦ rw e refl
    | inr e ↦ rw (e, map-insert_sorted a xs) refl
  ]

  -- Sorting by a key, and then taking the keys, sorts the keys.
  pub map-sort :
      (xs : List A) → map f (sort (λ x y. before (f x) (f y)) xs) ≡ sort before (map f xs)
  map-sort [] = refl
  map-sort (x ∷ xs) =
      rw (map-insert_sorted x (sort (λ a b. before (f a) (f b)) xs), map-sort xs) refl

pub length-map {ℓ κ} :
    {A : Type ℓ} {B : Type κ} (f : A → B) (xs : List A) → length (map f xs) ≡ length xs
length-map f [] = refl
length-map f (x ∷ xs) = ap suc (length-map f xs)

pub length-append {ℓ} : {A : Type ℓ} (xs ys : List A) → length (xs ++ ys) ≡ length xs + length ys
length-append [] ys = omega arith
length-append (x ∷ xs) ys = ground (arith, length-append xs ys)
