-- ===== src/Base/Tests.antt =====
-- Boolean tests on numbers, texts and enumerations, and the conditional.
use Prim.Native.Nat.{ℕ, compare, Ordering}
use Prim.Native.String.{String}
use mathlib.Core.Path.{◌≡◌, refl}
use mathlib.Core.Logic.{◌↔◌, ◌⊎◌, inl, inr}
use mathlib.Core.Bool.{Bool, true, false, ◌&&◌}
use mathlib.Core.Option.{Option, none, some}
use native.Mathlib.Omega.{arith}
use text.Mathlib.Text.{◌==◌ as str_eq}
use text.Mathlib.TextEquality.{eq_iff}

abbrev pub ltb : ℕ → ℕ → Bool
ltb a b = elim (compare a b) [ Ordering.lt ↦ true | _ ↦ false ]

abbrev pub leb : ℕ → ℕ → Bool
leb a b = elim (compare a b) [ Ordering.gt ↦ false | _ ↦ true ]

abbrev pub nat_eq : ℕ → ℕ → Bool
nat_eq a b = elim (compare a b) [ Ordering.eq ↦ true | _ ↦ false ]

infix 1 if◌then◌else◌
abbrev pub if◌then◌else◌ {ℓ} : {A : Type ℓ} → Bool → A → A → A
if true then x else y = x
if false then x else y = y

pub nat_eq_iff : (a b : ℕ) → (nat_eq a b ≡ true) ↔ (a ≡ b)
nat_eq_iff a b = ground arith

pub Bool-cases : (b : Bool) → (b ≡ true) ⊎ (b ≡ false)
Bool-cases true = inl refl
Bool-cases false = inr refl

pub Option-cases {ℓ} : {A : Type ℓ} (o : Option A) → (o ≡ none) ⊎ ((a : A) × (o ≡ some a))
Option-cases none = inl refl
Option-cases (some a) = inr (a, refl)

-- The comparison `===` of a type's values, and what it decides.
pub record Eq {ℓ} (A : Type ℓ) : Type ℓ where
  pub same : A → A → Bool
  pub same_iff : (x y : A) → (same x y ≡ true) ↔ (x ≡ y)

abbrev pub of_dec {ℓ} : {A : Type ℓ} → Dec A → Bool
of_dec (yes p) = true
of_dec (no p) = false

pub of_dec_iff {ℓ} : {A : Type ℓ} (d : Dec A) → (of_dec d ≡ true) ↔ A
of_dec_iff (yes p) = (λ _. p, λ _. refl)
of_dec_iff (no p) = (λ h. cc, λ a. absurd (p a))

-- An enumeration of string tags is compared by its decided equality.
abbrev pub enum_eq {ℓ} : {A : Type ℓ} → Discrete A → Eq A
enum_eq d = record { same = λ a b. of_dec (d a b); same_iff = λ a b. of_dec_iff (d a b) }

instance abbrev pub string_eq : Eq String
string_eq = record { same_iff = eq_iff; same = str_eq }

infix 50 ◌==◌
abbrev pub ◌==◌ {κ} : {S : Type κ} ⦃values : Eq S⦄ → S → S → Bool
◌==◌ ⦃values⦄ x y = values.same x y

instance abbrev pub nat_eq_instance : Eq ℕ
nat_eq_instance = record { same_iff = nat_eq_iff; same = nat_eq }

-- A result, or the error that the source throws or returns.
pub data Result {ℓ κ} (E : Type ℓ) (A : Type κ) : Type (ℓ ⊔ κ) where
  err : (reason : E) → Result E A
  ok : (value : A) → Result E A

pub ok-injective {ℓ κ} :
    {E : Type ℓ} {A : Type κ} {a b : A} → ◌≡◌ {A = Result E A} (ok a) (ok b) → a ≡ b
ok-injective h = cc

-- A step that fails ends the rest.
infixl 5 ◌>>=◌
abbrev pub ◌>>=◌ {μ ℓ κ} :
    {B : Type μ} {E : Type ℓ} {A : Type κ} → Result E A → (A → Result E B) → Result E B
m >>= step = elim m [ err reason ↦ err reason | ok value ↦ step value ]

-- Of a chain that succeeds, the first step succeeds, and so does the rest on its value.
pub >>=-eq-ok {μ ℓ κ} :
    {B : Type μ} {E : Type ℓ} {A : Type κ} (first : Result E A) (step : A → Result E B) {out : B}
    → first >>= step ≡ ok out
    → (value : A) × (first ≡ ok value) × (step value ≡ ok out)
>>=-eq-ok (err reason) step done = absurd (cc)
>>=-eq-ok (ok value) step done = (value, refl, done)

-- A guard that fails on a test was passed if the code succeeds.
pub guard_ok {ℓ κ} :
    {E : Type ℓ} {A : Type κ} (b : Bool) (reason : E) (rest : Result E A) {a : A}
    → ◌≡◌ {A = Result E A} (if b then err reason else rest) (ok a)
    → (b ≡ false) × (rest ≡ ok a)
guard_ok true reason rest h = absurd (cc)
guard_ok false reason rest h = (refl, h)

pub none-some {ℓ} : {A : Type ℓ} {a : A} → ◌≡◌ {A = Option A} none (some a) → ⊥
none-some h = cc

pub some-injective {ℓ} : {A : Type ℓ} {a b : A} → ◌≡◌ {A = Option A} (some a) (some b) → a ≡ b
some-injective h = cc

pub err_ok {ℓ κ} :
    {E : Type ℓ} {A : Type κ} {reason : E} {a : A} → ◌≡◌ {A = Result E A} (err reason) (ok a) → ⊥
err_ok h = cc

pub true-false : ◌≡◌ {A = Bool} true false → ⊥
true-false h = cc

pub and_true : (a b : Bool) → (a && b) ≡ true → (a ≡ true) × (b ≡ true)
and_true a b h = ground arith

-- A guard on an optional result was passed if there is a result.
pub guard_some {ℓ} :
    {A : Type ℓ} (b : Bool) (rest : Option A) {a : A}
    → ◌≡◌ {A = Option A} (if b then none else rest) (some a)
    → (b ≡ false) × (rest ≡ some a)
guard_some true rest h = absurd (none-some h)
guard_some false rest h = (refl, h)
