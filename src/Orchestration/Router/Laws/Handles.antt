-- ===== src/Orchestration/Router/Laws/Handles.antt =====
-- The check of the handles that differ in case only, for packages/orchestration/src/router.ts.
use forge_room.Base.{
  String, Bool, true, false, ◌||◌, List, [], ◌∷◌, map, length, any, all, includes, ltb, ◌==◌,
  string_eq, ◌≡◌, ◌↔◌, refl, ap, arith, Bool-cases, inl, inr, eq_iff,
}
use forge_room.Base.ListLaws.{length-append, eq_self}
use forge_room.Base.Distinct.{Distinct}
use forge_room.Orchestration.Router.{
  MentionRouterCoworker, HandleGroups, add_handle, is_shared, group_handles, has_ambiguous_handles,
}

abbrev has_key : HandleGroups → String → Bool
has_key groups key = any (λ g. g.0 == key) groups

-- Each group has a handle.
abbrev all_used : HandleGroups → Bool
all_used = all λ g. ltb 0 (length g.1)

has_key-add_handle :
    (key handle : String) (groups : HandleGroups) (k : String)
    → has_key (add_handle key handle groups) k ≡ (key == k || has_key groups k)
has_key-add_handle key handle [] k = refl
has_key-add_handle key handle ((k', handles) ∷ groups) k = elim (Bool-cases (k' == key)) [
  | inl same ↦ let e : k' ≡ key = (eq_iff k' key).0 same in rw (same, e) (ground arith)
  | inr other ↦ rw (other, has_key-add_handle key handle groups k) (ground arith)
]

all_used-add_handle :
    (key handle : String) (groups : HandleGroups)
    → all_used groups ≡ true
    → all_used (add_handle key handle groups) ≡ true
all_used-add_handle key handle [] h = refl
all_used-add_handle key handle ((k, handles) ∷ groups) h =
    ground (arith, all_used-add_handle key handle groups, length-append handles (handle ∷ []))

-- A handle makes a group shared exactly if its key was there.
shared-add_handle :
    (key handle : String) (groups : HandleGroups)
    → all_used groups ≡ true
    → any is_shared (add_handle key handle groups) ≡ (has_key groups key || any is_shared groups)
shared-add_handle key handle [] h = refl
shared-add_handle key handle ((k, handles) ∷ groups) h =
    ground (arith, shared-add_handle key handle groups, length-append handles (handle ∷ []))

module _ (lower : String → String) where
  abbrev pub keys_of : List MentionRouterCoworker → List String
  keys_of = map λ row. lower row.handle

  abbrev Apart : HandleGroups → List String → Type 0
  Apart groups keys = (k : String) → includes keys k ≡ true → has_key groups k ≡ false

  group_handles-Apart :
      (groups : HandleGroups) (rows : List MentionRouterCoworker)
      → all_used groups ≡ true
      → any is_shared (group_handles lower groups rows) ≡ false
      → (any is_shared groups ≡ false) × Distinct (keys_of rows) × Apart groups (keys_of rows)
  group_handles-Apart groups [] used h = (h, tt, λ k m. absurd (cc))
  group_handles-Apart groups (row ∷ rows) used h =
      let key = lower row.handle in
      let more = add_handle key row.handle groups in
      let (unshared, apart, new) =
        group_handles-Apart more rows (all_used-add_handle key row.handle groups used) h in
      let both = shared-add_handle key row.handle groups used in
      (
        ground arith,
        (ground (arith, new key, has_key-add_handle key row.handle groups key, eq_self key), apart),
        λ k m. ground (arith, new k, has_key-add_handle key row.handle groups k, eq_iff key k),
      )

  group_handles-unshared :
      (groups : HandleGroups) (rows : List MentionRouterCoworker)
      → all_used groups ≡ true
      → any is_shared groups ≡ false
      → Distinct (keys_of rows)
      → Apart groups (keys_of rows)
      → any is_shared (group_handles lower groups rows) ≡ false
  group_handles-unshared groups [] used h d apart = h
  group_handles-unshared groups (row ∷ rows) used h (new, d) apart =
      let key = lower row.handle in
      group_handles-unshared (add_handle key row.handle groups) rows
        (all_used-add_handle key row.handle groups used)
        (ground (arith, shared-add_handle key row.handle groups used, apart key, eq_self key)) d
        λ k m. ground (arith, has_key-add_handle key row.handle groups k, apart k, eq_iff key k)

  -- The check passes exactly when no two of the coworkers have handles that differ in case only.
  pub unambiguous_iff :
      (rows : List MentionRouterCoworker)
      → (has_ambiguous_handles lower rows ≡ false) ↔ Distinct (keys_of rows)
  unfolding has_ambiguous_handles
  unambiguous_iff rows = (
    λ h. (group_handles-Apart [] rows refl h).1,
    λ d. group_handles-unshared [] rows refl refl d (λ k m. refl),
  )

  lowered_included :
      (rows : List MentionRouterCoworker) (h : String)
      → includes (map (λ row. row.handle) rows) h ≡ true
      → includes (keys_of rows) (lower h) ≡ true
  lowered_included [] h m = absurd (cc)
  lowered_included (row ∷ rows) h m = elim (Bool-cases (row.handle == h)) [
    | inl same ↦
        let e : row.handle ≡ h = (eq_iff row.handle h).0 same in
        ground (arith, ap lower e, eq_self (lower h))
    | inr other ↦ ground (arith, lowered_included rows h)
  ]

  -- Coworkers whose lowered handles differ have different handles.
  pub Distinct-handles :
      (rows : List MentionRouterCoworker)
      → Distinct (keys_of rows)
      → Distinct (map (λ row. row.handle) rows)
  Distinct-handles [] d = tt
  Distinct-handles (row ∷ rows) (new, d) =
      (ground (arith, lowered_included rows row.handle), Distinct-handles rows d)
