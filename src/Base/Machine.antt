-- ===== src/Base/Machine.antt =====
-- Transition tables as graphs: histories of accepted moves, and what ranks and gates say of them.
use Prim.Native.Nat.{ℕ, zero, suc, ◌+◌, ◌≤◌, ◌<◌}
use mathlib.Core.Path.{◌≡◌, subst, sym}
use mathlib.Core.Logic.{◌⊎◌, inl, inr}
use mathlib.Core.Bool.{Bool, true, false}
use native.Mathlib.Omega.{arith}

-- A history of `n` moves, each accepted by the guard `can`.
pub data Trace {ℓ} {S : Type ℓ} (can : S → S → Bool) (s : S) : S → ℕ → Type ℓ where
  here : Trace can s s zero
  next : {t u : S} {n : ℕ} → Trace can s t n → can t u ≡ true → Trace can s u (suc n)

module _ {ℓ} {S : Type ℓ} (can : S → S → Bool) where
  -- If every accepted move raises the rank, a history is no longer than the rank it gains.
  pub Trace-bound :
      (rank : S → ℕ)
      → ((s t : S) → can s t ≡ true → rank s < rank t)
      → {s t : S} {n : ℕ} → Trace can s t n
      → rank s + n ≤ rank t
  Trace-bound rank up here = omega arith
  Trace-bound rank up (next {t} {u} tr m) = omega (arith, up t u m, Trace-bound rank up tr)

  -- What every accepted move keeps holds at the end of a history.
  pub Trace-keeps {κ} :
      (P : S → Type κ)
      → ((s t : S) → can s t ≡ true → P s → P t)
      → {s t : S} {n : ℕ} → Trace can s t n
      → P s
      → P t
  Trace-keeps P keep here h = h
  Trace-keeps P keep (next {t} {u} tr m) h = keep t u m (Trace-keeps P keep tr h)

  -- The history that passes through `gate` on its way.
  abbrev pub PassesThrough : S → S → S → ℕ → Type ℓ
  PassesThrough gate s t n =
      (m : ℕ) × (k : ℕ) × Trace can s gate m × Trace can gate t k × (m + k ≡ n)

  pass_next :
      {gate s t u : S} {n : ℕ}
      → can t u ≡ true
      → PassesThrough gate s t n
      → PassesThrough gate s u (suc n)
  pass_next m (i, k, before, after, e) = (i, suc k, before, next after m, omega arith)

  -- If a region is entered only at `gate`, a history that ends inside passes through `gate`.
  pub Trace-gate :
      (inside : S → Bool) (gate : S)
      → ((s t : S) → can s t ≡ true → inside t ≡ true → (inside s ≡ true) ⊎ (t ≡ gate))
      → {s t : S} {n : ℕ} → inside s ≡ false
      → Trace can s t n
      → inside t ≡ true
      → PassesThrough gate s t n
  Trace-gate inside gate enters out here h = absurd (cc)
  Trace-gate inside gate enters {s} out (next {t} {u} {n} tr m) h = elim (enters t u m h) [
    | inl in_t ↦ pass_next m (Trace-gate inside gate enters out tr in_t)
    | inr e ↦ (
      suc n,
      zero,
      subst (λ x. Trace can s x (suc n)) e (next tr m),
      subst (λ x. Trace can x u zero) e here,
      omega arith,
    )
  ]

  pub pass_at_start :
      (gate : S) {s t : S} {n : ℕ} → gate ≡ s → Trace can s t n → PassesThrough gate s t n
  pass_at_start gate {t} {n} e tr = (
    0,
    n,
    subst (λ x. Trace can x gate 0) e here,
    subst (λ x. Trace can x t n) (sym e) tr,
    omega arith,
  )
