-- ===== src/AgUi/Delta/Laws.antt =====
-- Patches of a revision: packages/contracts/src/events.ts with
-- packages/integrations/ag-ui/src/json-patch.ts.
use forge_room.Base.{
  ℕ, String, true, Option, none, some, List, [], ◌∷◌, ◌++◌, leb, ◌+◌, ◌==◌, string_eq,
  nat_eq_instance, nat_eq_iff, ◌≡◌, ◌≢◌, refl, sym, ap, ◌∙◌, Bool-cases, Option-cases, inl, inr,
  eq_iff, none-some, some-injective, true-false, and_true,
}
use mathlib.Core.Path.{subst}
use forge_room.Base.Json.{Json, object, array, text, natural_number, other_number, boolean, null}
use forge_room.AgUi.Patch.{
  JsonPatchOp, add, remove, replace, test, Texts, parse_json_pointer, apply_one, read_value,
  apply_json_patch,
}
use forge_room.AgUi.Patch.Laws.Places.{replace_read}
use forge_room.AgUi.Patch.Laws.Sequence.{patch-append, patch_one}
use forge_room.AgUi.Delta.{
  max_safe_integer, revision_value, first_of, last_of, tested_revision, replaced_revision,
  is_valid_revision_patch,
}

pub revision_value-some : (v : Json) (n : ℕ) → revision_value v ≡ some n → v ≡ natural_number n
unfolding revision_value
revision_value-some (natural_number k) n h = elim (Bool-cases (leb k max_safe_integer)) [
  | inl safe ↦ ap natural_number (some-injective (rw (safe, revision_value) at h))
  | inr unsafe ↦ absurd (none-some (rw (unsafe, revision_value) at h))
]
revision_value-some (object m) n h = absurd (none-some h)
revision_value-some (array items) n h = absurd (none-some h)
revision_value-some (text s) n h = absurd (none-some h)
revision_value-some (other_number s) n h = absurd (none-some h)
revision_value-some (boolean b) n h = absurd (none-some h)
revision_value-some null n h = absurd (none-some h)

replaced_some :
    (path : String) (op : Option JsonPatchOp) (n : ℕ)
    → replaced_revision path op ≡ some n
    → op ≡ some (replace path (natural_number n))
unfolding replaced_revision
replaced_some path none n h = absurd (none-some h)
replaced_some path (some (add p v)) n h = absurd (none-some h)
replaced_some path (some (remove p)) n h = absurd (none-some h)
replaced_some path (some (test p v)) n h = absurd (none-some h)
replaced_some path (some (replace p v)) n h = elim (Bool-cases (p == path)) [
  | inl same ↦
      let e : p ≡ path = (eq_iff p path).0 same in
      let e' = revision_value-some v n (rw (same, replaced_revision) at h) in rw (e, e') refl
  | inr other ↦ absurd (none-some (rw (other, replaced_revision) at h))
]

last_split :
    (ops : List JsonPatchOp) (op : JsonPatchOp)
    → last_of ops ≡ some op
    → (init : List JsonPatchOp) × (ops ≡ init ++ (op ∷ []))
last_split [] op h = absurd (none-some h)
last_split (o ∷ []) op h = ([], ap (λ x. x ∷ []) (some-injective h))
last_split (o ∷ next ∷ ops) op h =
    let (init, e) = last_split (next ∷ ops) op h in (o ∷ init, ap (λ l. o ∷ l) e)

-- A valid patch tests a revision first, and replaces it by the next one last.
pub valid_patch_ends :
    (patch : List JsonPatchOp) (expected : Option ℕ) (path : String) (base : ℕ)
    → tested_revision path (first_of patch) ≡ some base
    → is_valid_revision_patch patch expected path ≡ true
    → (init : List JsonPatchOp) × (patch ≡ init ++ (replace path (natural_number (base + 1)) ∷ []))
unfolding is_valid_revision_patch
valid_patch_ends patch expected path base tested valid =
    elim (Option-cases (replaced_revision path (last_of patch))) [
      | inl nothing ↦ absurd (
          true-false
            (sym (and_true _ _ (rw (tested, nothing, is_valid_revision_patch) at valid)).1))
      | inr (next, replaced) ↦
          let follows : next ≡ base + 1 =
            (nat_eq_iff next (base + 1)).0
              (and_true _ _ (rw (tested, replaced, is_valid_revision_patch) at valid)).1 in
          last_split patch (replace path (natural_number (base + 1)))
            (rw (sym follows) (replaced_some path (last_of patch) next replaced))
    ]

-- A document other than `null` to which a valid patch of the revision at `path` is applied reads,
-- at that path, as the revision after the one that the patch tests first.
pub valid_patch_advances :
    (t : Texts) (patch : List JsonPatchOp) (expected : Option ℕ) (path : String)
    (segments : List String) (base : ℕ) (document result : Json)
    → parse_json_pointer t path ≡ some segments
    → document ≢ null
    → tested_revision path (first_of patch) ≡ some base
    → is_valid_revision_patch patch expected path ≡ true
    → apply_json_patch t document patch ≡ some result
    → read_value t result segments ≡ some (natural_number (base + 1))
unfolding apply_json_patch apply_one
valid_patch_advances t patch expected path segments base document result pointer inhabited tested
      valid applied =
    let (init, split) = valid_patch_ends patch expected path base tested valid in
    let op = replace path (natural_number (base + 1)) in
    let whole = patch-append t document init (op ∷ []) inhabited in
    let applied' : apply_json_patch t document (init ++ (op ∷ [])) ≡ some result =
      subst (λ p. apply_json_patch t document p ≡ some result) split applied in
    elim (Option-cases (apply_json_patch t document init)) [
      | inl failed ↦ absurd (none-some (sym (rw failed at whole) ∙ applied'))
      | inr (middle, done) ↦
          let last = sym (rw done at whole) ∙ applied' in
          replace_read t path (natural_number (base + 1)) segments middle result
            (rw (pointer, apply_one) at (patch_one t middle op result last))
    ]
