-- ===== src/Domain/CoworkerDrafts/Laws.antt =====
-- Laws of packages/domain/src/coworkers/resolver.ts.
use forge_room.Base.{
  ℕ, suc, zero, ◌+◌, ◌≤◌, String, Bool, true, false, none, some, List, [], ◌∷◌, ◌++◌, map, length,
  filter, any, includes, ltb, string_eq, ◌≡◌, ◌≢◌, refl, sym, ap, arith, eq_iff, none-some,
  true-false, some-injective, Bool-cases, Option-cases, inl, inr,
}
use mathlib.Core.Path.{subst}
use forge_room.Base.ListLaws.{length-map}
use forge_room.Base.Distinct.{Distinct}
use forge_room.Base.Pigeonhole.{Within, Distinct-length}
use forge_room.Domain.CoworkerDrafts.{
  CoworkerDraftProposal, is_read_only, reserved_coworker_handles, research_read_tool_slug,
  is_reserved_coworker_handle, is_taken, find_handle, unique_handle, wants_github_read,
  resolve_tools, first_one, resolve_channel_ids, resolve_coworker_draft,
}

module _ (lower : String → String) (with_suffix : String → ℕ → String) (base : String)
    (numbered : (m n : ℕ) → lower (with_suffix base m) ≡ lower (with_suffix base n) → m ≡ n)
    (new : (n : ℕ) → lower (with_suffix base n) ≢ lower base) where
  -- The lowered candidates of the loop.
  abbrev tried : (fuel suffix : ℕ) → (candidate : String) → List String
  tried zero suffix candidate = []
  tried (suc fuel) suffix candidate =
      lower candidate ∷ tried fuel (suffix + 1) (with_suffix base suffix)

  length-tried :
      (fuel suffix : ℕ) (candidate : String) → length (tried fuel suffix candidate) ≡ fuel
  length-tried zero suffix candidate = refl
  length-tried (suc fuel) suffix candidate =
      ap suc (length-tried fuel (suffix + 1) (with_suffix base suffix))

  -- A text that no numbered candidate from `suffix` on lowers to is not tried.
  tried_apart :
      (fuel suffix : ℕ) (key : String)
      → ((n : ℕ) → suffix ≤ n → lower (with_suffix base n) ≢ key)
      → includes (tried fuel (suffix + 1) (with_suffix base suffix)) key ≡ false
  tried_apart zero suffix key apart = refl
  tried_apart (suc fuel) suffix key apart =
      let here = apart suffix (omega arith) in
      let rest = tried_apart fuel (suffix + 1) key λ n later. apart n (omega arith) in
      ground (arith, rest, here, eq_iff (lower (with_suffix base suffix)) key)

  Distinct-tried : (fuel suffix : ℕ) → Distinct (tried fuel (suffix + 1) (with_suffix base suffix))
  Distinct-tried zero suffix = tt
  Distinct-tried (suc fuel) suffix = (
    tried_apart fuel (suffix + 1) (lower (with_suffix base suffix))
        λ n later same. let e = numbered n suffix same in absurd (omega arith),
    Distinct-tried fuel (suffix + 1),
  )

  -- If the loop ends without a handle, all that it tried is taken.
  find_handle-none :
      (lowered : List String) (fuel suffix : ℕ) (candidate : String)
      → find_handle lower with_suffix base lowered fuel suffix candidate ≡ none
      → Within (tried fuel suffix candidate) (reserved_coworker_handles ++ lowered)
  unfolding find_handle is_reserved_coworker_handle
  find_handle-none lowered zero suffix candidate h a m = absurd (cc)
  find_handle-none lowered (suc fuel) suffix candidate h a m =
      elim (Bool-cases (is_taken lower with_suffix lowered candidate)) [
        | inr free ↦ absurd (none-some (sym (rw (free, find_handle) at h)))
        | inl taken ↦
            let rest =
              find_handle-none lowered fuel (suffix + 1) (with_suffix base suffix)
                (rw (taken, find_handle) at h) a in
            ground (arith, rest, eq_iff (lower candidate) a)
      ]

  find_handle-some :
      (lowered : List String) (fuel suffix : ℕ) (candidate handle : String)
      → find_handle lower with_suffix base lowered fuel suffix candidate ≡ some handle
      → is_taken lower with_suffix lowered handle ≡ false
  unfolding find_handle
  find_handle-some lowered zero suffix candidate handle h = absurd (none-some h)
  find_handle-some lowered (suc fuel) suffix candidate handle h =
      elim (Bool-cases (is_taken lower with_suffix lowered candidate)) [
        | inr free ↦
            subst (λ x. is_taken lower with_suffix lowered x ≡ false)
              (some-injective (rw (free, find_handle) at h)) free
        | inl taken ↦
            find_handle-some lowered fuel (suffix + 1) (with_suffix base suffix) handle
              (rw (taken, find_handle) at h)
      ]

  -- The search for a handle ends with one that is neither reserved nor, up to case, among the
  -- existing ones, if the numbered candidates differ from each other and from the base, up to case.
  pub unique_handle_found :
      (existing : List String)
      → (handle : String) × (unique_handle lower with_suffix base existing ≡ some handle)
        × (is_reserved_coworker_handle lower with_suffix handle ≡ false)
        × (includes (map lower existing) (lower handle) ≡ false)
  unfolding unique_handle
  unique_handle_found existing =
      let lowered = map lower existing in
      let fuel = suc (length reserved_coworker_handles + length existing) in
      elim (Option-cases (find_handle lower with_suffix base lowered fuel 2 base)) [
        | inr (handle, found) ↦
            let free = find_handle-some lowered fuel 2 base handle found in
            (handle, found, ground arith, ground arith)
        | inl nothing ↦
            let within = find_handle-none lowered fuel 2 base nothing in
            let apart : Distinct (tried fuel 2 base) = (
              tried_apart (length reserved_coworker_handles + length existing) 2 (lower base)
                  (λ n later. new n),
              Distinct-tried (length reserved_coworker_handles + length existing) 2,
            ) in
            let bound =
              Distinct-length (tried fuel 2 base) (reserved_coworker_handles ++ lowered) apart
                within in
            absurd (omega (arith, bound, length-tried fuel 2 base, length-map lower existing))
      ]

tools_granted :
    (p : CoworkerDraftProposal) (tool : String)
    → includes (resolve_tools p) tool ≡ true
    → (tool ≡ research_read_tool_slug)
      × (is_read_only p.approval_intent ≡ true)
      × (any wants_github_read p.requested_connections ≡ true)
unfolding resolve_tools
tools_granted p tool h = elim (Bool-cases (is_read_only p.approval_intent)) [
  | inr more ↦ absurd (true-false (sym (rw (more, resolve_tools) at h)))
  | inl limited ↦ elim (Bool-cases (any wants_github_read p.requested_connections)) [
    | inr unasked ↦ absurd (true-false (sym (rw (limited, unasked, resolve_tools) at h)))
    | inl asked ↦
        let one = rw (limited, asked, resolve_tools) at h in
        (sym ((eq_iff research_read_tool_slug tool).0 (ground arith)), limited, asked)
  ]
]

included_filter :
    (q : String → Bool) (xs : List String) (a : String)
    → includes (filter q xs) a ≡ true
    → includes xs a ≡ true
included_filter q [] a h = h
included_filter q (x ∷ xs) a h = ground (arith, included_filter q xs a)

included_first :
    (xs : List String) (a : String) → includes (first_one xs) a ≡ true → includes xs a ≡ true
included_first [] a h = h
included_first (x ∷ xs) a h = ground arith

channels_assignable :
    (p : CoworkerDraftProposal) (assignable : List String) (channel : String)
    → includes (resolve_channel_ids p assignable) channel ≡ true
    → includes assignable channel ≡ true
unfolding resolve_channel_ids
channels_assignable p assignable channel h =
    elim (Bool-cases (ltb 0 (length p.requested_channels))) [
      | inl some_asked ↦
          included_filter (λ id. includes p.requested_channels id) assignable channel
            (rw (some_asked, resolve_channel_ids) at h)
      | inr none_asked ↦
          included_first assignable channel (rw (none_asked, resolve_channel_ids) at h)
    ]

-- Whatever is asked for, a resolved draft grants only the tool that reads an issue, and only if the
-- intent is to read and a connection to read GitHub was asked for; and it names only channels that
-- its creator may assign.
pub draft_grants_bounded :
    (slugify lower : String → String) (with_suffix : String → ℕ → String)
    (p : CoworkerDraftProposal) (assignable existing : List String)
    → ((tool : String)
        → includes
            (resolve_coworker_draft slugify lower with_suffix p assignable existing).tool_grants
            tool
          ≡ true
        → (tool ≡ research_read_tool_slug)
          × (is_read_only p.approval_intent ≡ true)
          × (any wants_github_read p.requested_connections ≡ true))
      × ((channel : String)
          → includes
              (resolve_coworker_draft slugify lower with_suffix p assignable existing).channel_ids
              channel
            ≡ true
          → includes assignable channel ≡ true)
unfolding resolve_coworker_draft
draft_grants_bounded slugify lower with_suffix p assignable existing =
    (tools_granted p, channels_assignable p assignable)
