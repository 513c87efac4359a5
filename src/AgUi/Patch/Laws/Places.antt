-- ===== src/AgUi/Patch/Laws/Places.antt =====
-- The place that a pointer names, for packages/integrations/ag-ui/src/json-patch.ts.
use forge_room.Base.{
  none-some, some-injective, true-false, ℕ, suc, zero, String, false, Option, none, some, not, List,
  [], ◌∷◌, leb, ◌==◌, string_eq, ◌≡◌, refl, sym, arith, Option-cases, Bool-cases, inl, inr,
}
use mathlib.Core.Path.{subst}
use forge_room.Base.ListLaws.{eq_self}
use forge_room.Base.Json.{
  lookup_member, Json, Members, no_members, member, Items, no_items, item, object, array, text,
  natural_number, other_number, boolean, null,
}
use forge_room.AgUi.Patch.{
  replace, Texts, ParentRef, in_object, in_array, child_of, put_child, parent_ref, resolve_parent,
  put_parent, read_ref, read_value, replace_ref, is_in, edit_parent, apply_at,
}
use forge_room.AgUi.Patch.Values.{item_at, set_item, set_member, count_items}

set_member_lookup :
    (m : Members) (k : String) (v : Json) → lookup_member (set_member m k v) k ≡ some v
set_member_lookup no_members k v = ground (arith, eq_self k)
set_member_lookup (member n w others) k v = ground (arith, set_member_lookup others k v, eq_self k)

set_item_at :
    (items : Items) (i : ℕ) (old v : Json)
    → item_at items i ≡ some old
    → item_at (set_item items i v) i ≡ some v
set_item_at no_items i old v h = absurd (cc)
set_item_at (item a others) zero old v h = refl
set_item_at (item a others) (suc i) old v h = set_item_at others i old v h

set_item_in_range :
    (items : Items) (i : ℕ) (v : Json)
    → leb (count_items items) i ≡ false
    → item_at (set_item items i v) i ≡ some v
set_item_in_range no_items i v h = absurd (true-false (ground arith))
set_item_in_range (item a others) zero v h = refl
set_item_in_range (item a others) (suc i) v h = set_item_in_range others i v (ground arith)

module _ (t : Texts) where
  child_put :
      (segment : String) (root child new : Json)
      → child_of t segment root ≡ some child
      → child_of t segment (put_child t segment root new) ≡ some new
  unfolding child_of put_child
  child_put s (array items) child new h = elim (Option-cases (t.index_of s)) [
    | inl no_index ↦ absurd (none-some (rw (no_index, child_of) at h))
    | inr (i, index) ↦
        rw (index, put_child, index, child_of)
          (set_item_at items i child new (rw (index, child_of) at h))
  ]
  child_put s (object m) child new h = set_member_lookup m s new
  child_put s (text x) child new h = absurd (none-some h)
  child_put s (natural_number x) child new h = absurd (none-some h)
  child_put s (other_number x) child new h = absurd (none-some h)
  child_put s (boolean x) child new h = absurd (none-some h)
  child_put s null child new h = absurd (none-some h)

  -- The new parent `changed` is of the kind of the old one, and is seen as `new`.
  abbrev pub Changes : ParentRef → Json → ParentRef → Type 0
  Changes (in_array old key) changed new =
      (items : Items) × (changed ≡ array items) × (new ≡ in_array items key)
  Changes (in_object old key) changed new =
      (m : Members) × (changed ≡ object m) × (new ≡ in_object m key)

  parent_ref_array :
      (last : String) (items : Items) {old : ParentRef}
      → parent_ref t last (array items) ≡ some old
      → (key : Option ℕ) × (old ≡ in_array items key)
        × ((others : Items) → parent_ref t last (array others) ≡ some (in_array others key))
  unfolding parent_ref
  parent_ref_array last items {old} h = elim (Bool-cases (last == "-")) [
    | inl at_end ↦ (
      none,
      sym (some-injective (rw (at_end, parent_ref) at h)),
      λ _. rw (at_end, parent_ref) refl,
    )
    | inr other ↦ elim (Option-cases (t.index_of last)) [
      | inl no_index ↦ absurd (none-some (rw (other, no_index, parent_ref) at h))
      | inr (i, index) ↦ (
        some i,
        sym (some-injective (rw (other, index, parent_ref) at h)),
        λ _. rw (other, index, parent_ref) refl,
      )
    ]
  ]

  parent_ref_put :
      (last : String) (root : Json) (old : ParentRef) (changed : Json) (new : ParentRef)
      → parent_ref t last root ≡ some old
      → Changes old changed new
      → parent_ref t last changed ≡ some new
  unfolding parent_ref
  parent_ref_put last (array items) old changed new h c =
      let (key, same, others) = parent_ref_array last items h in
      let (items', e, e') : Changes (in_array items key) changed new =
        subst (λ o. Changes o changed new) same c in
      rw (e, e') (others items')
  parent_ref_put last (object m) old changed new h c =
      let (m', e, e') : Changes (in_object m last) changed new =
        subst (λ o. Changes o changed new) (sym (some-injective h)) c in
      rw (e, e', parent_ref) refl
  parent_ref_put last (text x) old changed new h c = absurd (none-some h)
  parent_ref_put last (natural_number x) old changed new h c = absurd (none-some h)
  parent_ref_put last (other_number x) old changed new h c = absurd (none-some h)
  parent_ref_put last (boolean x) old changed new h c = absurd (none-some h)
  parent_ref_put last null old changed new h c = absurd (none-some h)

  -- What stands at the place of the parent is the parent that was put there.
  resolve_put :
      (segments : List String) (root : Json) (old : ParentRef) (changed : Json) (new : ParentRef)
      → resolve_parent t segments root ≡ some old
      → Changes old changed new
      → resolve_parent t segments (put_parent t segments root changed) ≡ some new
  unfolding resolve_parent put_parent
  resolve_put [] root old changed new h c = absurd (none-some h)
  resolve_put (last ∷ []) root old changed new h c = parent_ref_put last root old changed new h c
  resolve_put (s ∷ next ∷ rest) root old changed new h c = elim (Option-cases (child_of t s root)) [
    | inl missing ↦ absurd (none-some (rw (missing, resolve_parent) at h))
    | inr (child, found) ↦
        rw
          (
            found,
            put_parent,
            resolve_parent,
            child_put s root child (put_parent t (next ∷ rest) child changed) found,
          )
          (resolve_put (next ∷ rest) child old changed new (rw (found, resolve_parent) at h) c)
  ]

  -- The places where `replace` succeeds read as the value that it puts there.
  replace_ref_read :
      (v : Json) (old : ParentRef) (changed : Json)
      → replace_ref t v old ≡ some changed
      → (new : ParentRef) × Changes old changed new × (read_ref t new ≡ some v)
  unfolding replace_ref read_ref
  replace_ref_read v (in_array items none) changed h = absurd (none-some h)
  replace_ref_read v (in_array items (some i)) changed h =
      elim (Bool-cases (leb (count_items items) i)) [
        | inl outside ↦ absurd (none-some (rw (outside, replace_ref) at h))
        | inr inside ↦
            let put = set_item items i v in
            (
              in_array put (some i),
              (put, sym (some-injective (rw (inside, replace_ref) at h)), refl),
              set_item_in_range items i v inside,
            )
      ]
  replace_ref_read v (in_object m key) changed h = elim (Bool-cases (not (is_in t m key))) [
    | inl absent ↦ absurd (none-some (rw (absent, replace_ref) at h))
    | inr present ↦
        let put = set_member m key v in
        (
          in_object put key,
          (put, sym (some-injective (rw (present, replace_ref) at h)), refl),
          set_member_lookup m key v,
        )
  ]

  -- After a change that a pointer's place reads as `v`, the pointer reads as `v`.
  edit_read :
      (edit : ParentRef → Option Json) (v : Json)
      → ((old : ParentRef) (changed : Json)
          → edit old ≡ some changed
          → (new : ParentRef) × Changes old changed new × (read_ref t new ≡ some v))
      → (s : String) (segments : List String) (root root' : Json)
      → edit_parent t edit (s ∷ segments) root ≡ some root'
      → read_value t root' (s ∷ segments) ≡ some v
  unfolding edit_parent read_value
  edit_read edit v reads s segments root root' h =
      elim (Option-cases (resolve_parent t (s ∷ segments) root)) [
        | inl missing ↦ absurd (none-some (rw (missing, edit_parent) at h))
        | inr (old, found) ↦ elim (Option-cases (edit old)) [
          | inl refused ↦ absurd (none-some (rw (found, refused, edit_parent) at h))
          | inr (changed, done) ↦
              let (new, changes, seen) = reads old changed done in
              let put = resolve_put (s ∷ segments) root old changed new found changes in
              let same = some-injective (rw (found, done, edit_parent) at h) in
              rw (sym same, read_value, put) seen
        ]
      ]

  pub replace_read :
      (path : String) (v : Json) (segments : List String) (root root' : Json)
      → apply_at t (replace path v) segments root ≡ some root'
      → read_value t root' segments ≡ some v
  unfolding apply_at read_value
  replace_read path v [] root root' h = sym h
  replace_read path v (s ∷ segments) root root' h =
      edit_read (replace_ref t v) v (replace_ref_read v) s segments root root' h
