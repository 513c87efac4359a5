-- ===== src/Orchestration/Router/Laws/Explicit.antt =====
-- The loop over the mentions of a message, for packages/orchestration/src/router.ts.
use forge_room.Base.{
  err_ok, String, Bool, true, ◌&&◌, ◌||◌, Option, none, some, if◌then◌else◌, List, [], ◌∷◌, ◌++◌,
  length, any, includes, ◌==◌, string_eq, Result, ok, err, ok-injective, Eq, eq_iff, ◌≡◌, refl, ap,
  ◌+◌, ◌<◌, ◌≤◌, arith, Bool-cases, inl, inr,
}
use mathlib.Core.List.{Memᴰ}
use mathlib.Core.Path.{subst}
use forge_room.Base.ListLaws.{filter_mem, includes-append, any-append, length-append, eq_self}
use forge_room.Base.Distinct.{Distinct, Distinct-push}
use forge_room.Orchestration.Router.{
  MentionRouterCoworker, RoutingFailure, is_enabled, authorize_target, only_match, matching,
  resolve_handle, resolve_token, resolve_tokens,
}

-- Some coworker of the handle is an active member that is available for new work.
abbrev pub can_receive : List MentionRouterCoworker → String → Bool
can_receive coworkers handle =
    any (λ row. row.handle == handle && (is_enabled row && row.available_for_new_work)) coworkers

pub any_from {ℓ} :
    {A : Type ℓ} (p : A → Bool) {a : A} (xs : List A) → Memᴰ a xs → p a ≡ true → any p xs ≡ true
any_from p [] m h = elim m [ ]
any_from p (x ∷ xs) (Memᴰ.head e) h = ground (arith, ap p e)
any_from p (x ∷ xs) (Memᴰ.tail m) h = ground (arith, any_from p xs m h)

pub any_included {ℓ} :
    {A : Type ℓ} ⦃e : Eq A⦄ (p : A → Bool) (xs : List A) (a : A)
    → includes xs a ≡ true
    → p a ≡ true
    → any p xs ≡ true
any_included p [] a m h = absurd (cc)
any_included ⦃e⦄ p (x ∷ xs) a m h = elim (Bool-cases (x == a)) [
  | inl same ↦ ground (arith, ap p ((e.same_iff x a).0 same))
  | inr other ↦ ground (arith, any_included p xs a (ground arith) h)
]

pub included_positive {ℓ} :
    {A : Type ℓ} ⦃e : Eq A⦄ (xs : List A) (a : A) → includes xs a ≡ true → 0 < length xs
included_positive [] a m = absurd (cc)
included_positive (x ∷ xs) a m = omega arith

only_match_ok :
    (rows : List MentionRouterCoworker) {row : MentionRouterCoworker}
    → only_match rows ≡ ok row
    → rows ≡ row ∷ []
only_match_ok [] h = absurd (cc)
only_match_ok (r ∷ []) h = cc
only_match_ok (r ∷ other ∷ rows) h = absurd (cc)

authorize_none :
    (row : MentionRouterCoworker)
    → authorize_target row ≡ none
    → (is_enabled row && row.available_for_new_work) ≡ true
unfolding authorize_target
authorize_none row h = ground arith

module _ (lower : String → String) (coworkers : List MentionRouterCoworker) where
  -- What the handles resolved so far have in common.
  abbrev pub AreReachable : List String → Type 0
  AreReachable handles =
      Distinct handles × ((h : String) → includes handles h ≡ true → can_receive coworkers h ≡ true)

  abbrev pub is_answered : String → List String → Bool
  is_answered token = any λ h. lower h == lower token

  -- What a round of the loop for `token` adds to the handles `old`.
  abbrev pub Adds : (token : String) → (old new : List String) → Type 0
  Adds token old new =
      AreReachable new
      × (length new ≤ length old + 1)
      × (0 < length new)
      × (is_answered token new ≡ true)
      × ((t : String) → is_answered t old ≡ true → is_answered t new ≡ true)

  resolve_handle_ok :
      (token : String) {row : MentionRouterCoworker}
      → resolve_handle lower token coworkers ≡ ok row
      → ((lower row.handle == lower token) ≡ true) × Memᴰ row coworkers
  unfolding resolve_handle
  resolve_handle_ok token {row} found =
      filter_mem (λ r. lower r.handle == lower token) coworkers
        (only_match_ok (matching lower token coworkers) found)

  push_Adds :
      (old : List String) (token : String) (row : MentionRouterCoworker)
      → AreReachable old
      → ((lower row.handle == lower token) ≡ true) × Memᴰ row coworkers
      → (is_enabled row && row.available_for_new_work) ≡ true
      → Adds token old (if includes old row.handle then old else old ++ (row.handle ∷ []))
  push_Adds old token row (apart, reached) (named, m) available =
      let here : can_receive coworkers row.handle ≡ true =
        any_from (λ r. r.handle == row.handle && (is_enabled r && r.available_for_new_work))
          coworkers m (ground (arith, eq_self row.handle)) in
      elim (Bool-cases (includes old row.handle)) [
        | inl there ↦ rw there (
          (apart, reached),
          omega arith,
          included_positive old row.handle there,
          any_included (λ h. lower h == lower token) old row.handle there named,
          λ t h. h,
        )
        | inr new ↦ rw new (
          (
            Distinct-push old row.handle apart new,
            λ h m. pushed h here (ground (arith, includes-append old (row.handle ∷ []) h)),
          ),
          omega (arith, length-append old (row.handle ∷ [])),
          omega (arith, length-append old (row.handle ∷ [])),
          ground (arith, any-append (λ h. lower h == lower token) old (row.handle ∷ [])),
          λ t h. ground (arith, any-append (λ h. lower h == lower t) old (row.handle ∷ [])),
        )
      ]
    where
      pushed :
          (h : String)
          → can_receive coworkers row.handle ≡ true
          → (includes old h || row.handle == h) ≡ true
          → can_receive coworkers h ≡ true
      pushed h here m = elim (Bool-cases (includes old h)) [
        | inl before ↦ reached h before
        | inr not_before ↦
            let same : row.handle ≡ h = (eq_iff row.handle h).0 (ground arith) in
            subst (λ k. can_receive coworkers k ≡ true) same here
      ]

  resolve_token-Adds :
      (old : List String) (token : String) (new : List String)
      → AreReachable old
      → resolve_token lower coworkers old token ≡ ok new
      → Adds token old new
  unfolding resolve_token
  resolve_token-Adds old token new good = found (resolve_handle lower token coworkers) refl
    where
      denied :
          (row : MentionRouterCoworker) (o : Option RoutingFailure)
          → resolve_handle lower token coworkers ≡ ok row
          → authorize_target row ≡ o
          → resolve_token lower coworkers old token ≡ ok new
          → Adds token old new
      denied row (some reason) e f h = absurd (err_ok (rw (e, f, resolve_token) at h))
      denied row none e f h =
          subst (Adds token old) (ok-injective (rw (e, f, resolve_token) at h))
            (push_Adds old token row good (resolve_handle_ok token e) (authorize_none row f))

      found :
          (r : Result RoutingFailure MentionRouterCoworker)
          → resolve_handle lower token coworkers ≡ r
          → resolve_token lower coworkers old token ≡ ok new
          → Adds token old new
      found (err reason) e h = absurd (err_ok (rw (e, resolve_token) at h))
      found (ok row) e h = denied row (authorize_target row) e refl h

  -- What the loop over `tokens` adds to the handles `old`.
  abbrev pub AddsAll : (tokens old new : List String) → Type 0
  AddsAll tokens old new =
      AreReachable new
      × (length new ≤ length old + length tokens)
      × (0 < length old + length tokens → 0 < length new)
      × ((t : String) → includes tokens t ≡ true → is_answered t new ≡ true)
      × ((t : String) → is_answered t old ≡ true → is_answered t new ≡ true)

  pub resolve_tokens_ok :
      (old tokens new : List String)
      → AreReachable old
      → resolve_tokens lower coworkers old tokens ≡ ok new
      → AddsAll tokens old new
  unfolding resolve_tokens
  resolve_tokens_ok old [] new good h =
      subst (AddsAll [] old) (ok-injective h)
        (good, omega arith, (λ p. omega arith), (λ t m. absurd (cc)), (λ t m. m))
  resolve_tokens_ok old (token ∷ tokens) new good h =
      step (resolve_token lower coworkers old token) refl h
        λ more. resolve_tokens_ok more tokens new
    where
      step :
          (r : Result RoutingFailure (List String))
          → resolve_token lower coworkers old token ≡ r
          → resolve_tokens lower coworkers old (token ∷ tokens) ≡ ok new
          → ((more : List String)
              → AreReachable more
              → resolve_tokens lower coworkers more tokens ≡ ok new
              → AddsAll tokens more new)
          → AddsAll (token ∷ tokens) old new
      step (err reason) e h later = absurd (err_ok (rw (e, resolve_tokens) at h))
      step (ok more) e h later =
          let (good', few, some_handle, answered, kept) =
            resolve_token-Adds old token more good e in
          let (good'', fewer, positive, all_answered, all_kept) =
            later more good' (rw (e, resolve_tokens) at h) in
          (
            good'',
            omega arith,
            (λ p. positive (omega arith)),
            (λ t m. elim (Bool-cases (includes tokens t)) [
              | inl listed ↦ all_answered t listed
              | inr not_later ↦
                  let same : token ≡ t = (eq_iff token t).0 (ground arith) in
                  all_kept t (subst (λ k. is_answered k more ≡ true) same answered)
            ]),
            (λ t m. all_kept t (kept t m)),
          )
