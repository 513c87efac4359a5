-- ===== src/AgUi/Patch/Laws/Equal.antt =====
-- `deepEqual` of packages/integrations/ag-ui/src/json-patch.ts, and its use in a patch.
use forge_room.Base.{
  none-some, sym, ℕ, if◌then◌else◌, ◌∙◌, String, Bool, true, false, none, some, List, [], ◌∷◌, sort,
  ◌==◌, string_eq, nat_eq_instance, ◌≡◌, refl, arith, Bool-cases, Option-cases, inl, inr, eq_iff,
}
use mathlib.Core.Path.{subst}
use forge_room.Base.ListLaws.{eq_self}
use forge_room.Base.Json.{
  lookup_member, Json, Members, no_members, member, Items, no_items, item, object, array, text,
  natural_number, other_number, boolean, null,
}
use forge_room.AgUi.Patch.{replace, test, Texts, parse_json_pointer, test_at, apply_at, apply_one}
use forge_room.AgUi.Patch.Values.{
  names_of, same_texts, same_boolean, same_names, deep_equal, equal_members, equal_items,
}
use forge_room.AgUi.Patch.Laws.Places.{replace_read}

unfoldable mutual
  -- No object of the value has a name twice.
  pub IsJson : Json → Type 0
  IsJson (object m) = AreMembers m
  IsJson (array items) = AreItems items
  IsJson (text s) = Unit
  IsJson (natural_number n) = Unit
  IsJson (other_number s) = Unit
  IsJson (boolean b) = Unit
  IsJson null = Unit

  pub AreMembers : Members → Type 0
  AreMembers no_members = Unit
  AreMembers (member name value others) =
      (lookup_member others name ≡ none) × IsJson value × AreMembers others

  pub AreItems : Items → Type 0
  AreItems no_items = Unit
  AreItems (item first others) = IsJson first × AreItems others

same_texts_self : (xs : List String) → same_texts xs xs ≡ true
same_texts_self [] = refl
same_texts_self (x ∷ xs) = ground (arith, eq_self x, same_texts_self xs)

same_boolean_self : (b : Bool) → same_boolean b b ≡ true
same_boolean_self true = refl
same_boolean_self false = refl

-- Each property of `part` is one of `whole`.
abbrev IsPart : Members → Members → Type 0
IsPart part whole =
    (name : String) (value : Json)
    → lookup_member part name ≡ some value
    → lookup_member whole name ≡ some value

IsPart-tail :
    (n : String) (v : Json) (others whole : Members)
    → lookup_member others n ≡ none
    → IsPart (member n v others) whole
    → IsPart others whole
IsPart-tail n v others whole new part name value found = elim (Bool-cases (n == name)) [
  | inl same ↦
      let e : n ≡ name = (eq_iff n name).0 same in
      let gone = subst (λ k. lookup_member others k ≡ none) e new in
      absurd (none-some (sym gone ∙ found))
  | inr other ↦ part name value (ground arith)
]

module _ (text_of : ℕ → String) (before : String → String → Bool) where
  mutual
    unfolding deep_equal same_names IsJson

    deep_equal_self : (v : Json) → IsJson v → deep_equal text_of before v v ≡ true
    deep_equal_self (object m) w = ground (
      arith,
      same_texts_self (sort before (names_of m)),
      equal_members_part m m w (λ name value found. found),
    )
    deep_equal_self (array items) w = equal_items_self items w
    deep_equal_self (text s) w = eq_self s
    deep_equal_self (natural_number n) w = eq_self n
    deep_equal_self (other_number s) w = eq_self s
    deep_equal_self (boolean b) w = same_boolean_self b
    deep_equal_self null w = refl

    equal_members_part :
        (part whole : Members)
        → AreMembers part
        → IsPart part whole
        → equal_members text_of before part whole ≡ true
    equal_members_part no_members whole w p = refl
    equal_members_part (member n v others) whole (new, w, ws) p =
        let here = p n v (ground (arith, eq_self n)) in
        let rest = equal_members_part others whole ws (IsPart-tail n v others whole new p) in
        let first = deep_equal_self v w in rw (here, first, rest) refl

    equal_items_self :
        (items : Items) → AreItems items → equal_items text_of before items items ≡ true
    equal_items_self no_items w = refl
    equal_items_self (item first others) (w, ws) =
        let here = deep_equal_self first w in
        let rest = equal_items_self others ws in rw (here, rest) refl

-- Behind a `replace` that puts a value without a repeated name at a place, the `test` of that place
-- for that value passes, and its test for any other passes exactly if `deepEqual` takes the two for
-- equal; a test that passes leaves the document as it is.
pub replace_then_test :
    (t : Texts) (path : String) (value other root root' : Json)
    → IsJson value
    → apply_one t root (replace path value) ≡ some root'
    → (apply_one t root' (test path value) ≡ some root')
      × (apply_one t root' (test path other)
          ≡ (if deep_equal t.text_of_index t.before value other then some root' else none))
unfolding apply_one apply_at test_at
replace_then_test t path value other root root' w h =
    elim (Option-cases (parse_json_pointer t path)) [
      | inl refused ↦ absurd (none-some (rw (refused, apply_one) at h))
      | inr (segments, parsed) ↦
          let read = replace_read t path value segments root root' (rw (parsed, apply_one) at h) in
          let self = deep_equal_self t.text_of_index t.before value w in
          (
            rw (parsed, apply_one, apply_at, test_at, read, self) refl,
            rw (parsed, apply_one, apply_at, test_at, read) refl,
          )
    ]
