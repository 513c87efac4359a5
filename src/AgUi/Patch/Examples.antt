-- ===== src/AgUi/Patch/Examples.antt =====
-- Patches of small documents, for packages/integrations/ag-ui/src/json-patch.ts.
use forge_room.Base.{
  ℕ, true, false, none, some, if◌then◌else◌, [], ◌∷◌, ◌++◌, ◌==◌, string_eq, nat_eq_instance, ◌≡◌,
  refl,
}
use forge_room.Base.Json.{
  Json, no_members, member, no_items, item, object, array, natural_number, null,
}
use forge_room.AgUi.Patch.Values.{deep_equal, same_names}
use forge_room.AgUi.Patch.{
  JsonPatchOp, replace, test, Texts, apply_one, apply_at, parse_json_pointer, edit_parent,
  resolve_parent, parent_ref, replace_ref, is_in, put_parent, apply_json_patch,
}
use forge_room.AgUi.Patch.Laws.Equal.{IsJson, replace_then_test}
use forge_room.AgUi.Patch.Laws.Sequence.{patch-append, then_patch}

abbrev plain_texts : Texts
plain_texts = record {
  segments = λ s. if s == "/revision" then some ("revision" ∷ []) else none;
  index_of = λ s. none;
  text_of_index = λ n. if n == 0 then "0" else "1";
  inherits = λ s. s == "toString";
  before = λ a b. true;
}

abbrev at_revision : ℕ → Json
at_revision n = object (member "revision" (natural_number n) no_members)

abbrev set_revision : JsonPatchOp
set_revision = replace "/revision" (natural_number 4)

revision_set : apply_one plain_texts (at_revision 3) set_revision ≡ some (at_revision 4)
unfolding apply_one apply_at parse_json_pointer edit_parent resolve_parent parent_ref replace_ref
    is_in put_parent
revision_set = refl

replace_then_test_example :
    (apply_one plain_texts (at_revision 4) (test "/revision" (natural_number 4))
      ≡ some (at_revision 4))
    × (apply_one plain_texts (at_revision 4) (test "/revision" (natural_number 3)) ≡ none)
unfolding IsJson deep_equal
replace_then_test_example =
    replace_then_test plain_texts "/revision" (natural_number 4) (natural_number 3) (at_revision 3)
      (at_revision 4) tt revision_set

-- An array is compared with an object by the keys of both.
array_equals_object :
    (deep_equal plain_texts.text_of_index plain_texts.before (array no_items) (object no_members)
      ≡ true)
    × (deep_equal plain_texts.text_of_index plain_texts.before
          (object (member "0" null no_members))
          (array (item null no_items))
        ≡ true)
    × (deep_equal plain_texts.text_of_index plain_texts.before
          (array (item null no_items))
          (object (member "1" null no_members))
        ≡ false)
unfolding deep_equal same_names
array_equals_object = (refl, refl, refl)

patch-append_example :
    apply_json_patch plain_texts (at_revision 3) ((set_revision ∷ []) ++ (set_revision ∷ []))
    ≡ then_patch plain_texts
        (set_revision ∷ [])
        (apply_json_patch plain_texts (at_revision 3) (set_revision ∷ []))
patch-append_example =
    patch-append plain_texts (at_revision 3) (set_revision ∷ []) (set_revision ∷ []) λ h. cc
