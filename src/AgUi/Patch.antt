-- ===== src/AgUi/Patch.antt =====
-- packages/integrations/ag-ui/src/json-patch.ts. The source walks to the parent of the place that a
-- pointer names and changes that parent in place, in a copy of the document; here the new parent is
-- put back on the same walk.
pub mod Values
pub mod Laws
mod Examples
use forge_room.Base.{
  ℕ, suc, zero, ◌-◌, String, Bool, true, false, not, ◌&&◌, ◌||◌, Option, none, some, if◌then◌else◌,
  List, [], ◌∷◌, any, includes, ltb, leb, ◌==◌, string_eq, nat_eq_instance,
}
use forge_room.Base.Json.{
  lookup_member, Json, Members, no_members, member, Items, no_items, item, object, array, text,
  natural_number, other_number, boolean, null,
}
use forge_room.AgUi.Patch.Values.{
  item_at, set_item, insert_item, delete_item, push_item, count_items, set_member, delete_member,
  deep_equal,
}

pub data JsonPatchOp : Type 0 where
  add : (path : String) (value : Json) → JsonPatchOp
  remove : (path : String) → JsonPatchOp
  replace : (path : String) (value : Json) → JsonPatchOp
  test : (path : String) (value : Json) → JsonPatchOp

abbrev pub path_of : JsonPatchOp → String
path_of (add path value) = path
path_of (remove path) = path
path_of (replace path value) = path
path_of (test path value) = path

-- The parent that is changed, and the key in it; `none` is the key "-".
pub data ParentRef : Type 0 where
  in_object : (parent : Members) (key : String) → ParentRef
  in_array : (parent : Items) (key : Option ℕ) → ParentRef

abbrev pub forbidden_segments : List String
forbidden_segments = "__proto__" ∷ "prototype" ∷ "constructor" ∷ []

-- What the source uses of the language: the segments of a text that starts with "/", unescaped
-- (`none` if it does not), the number of a segment that is an array index and the text of a number,
-- the names that every object inherits, and the order of texts.
pub record Texts : Type 0 where
  pub segments : String → Option (List String)
  pub index_of : String → Option ℕ
  pub text_of_index : ℕ → String
  pub inherits : String → Bool
  pub before : String → String → Bool

-- The caller takes the value `null` for a failure.
abbrev pub unless_null : Json → Option Json
unless_null null = none
unless_null (object members) = some (object members)
unless_null (array items) = some (array items)
unless_null (text s) = some (text s)
unless_null (natural_number n) = some (natural_number n)
unless_null (other_number s) = some (other_number s)
unless_null (boolean b) = some (boolean b)

module _ (t : Texts) where
  unfoldable pub parse_json_pointer : String → Option (List String)
  parse_json_pointer path = if path == "" then some [] else elim (t.segments path) [
    | none ↦ none
    | some found ↦ if any (includes forbidden_segments) found then none else some found
  ]

  -- One round of the walk. An inherited name leads to a function, where the walk ends too.
  unfoldable pub child_of : String → Json → Option Json
  child_of segment (array items) = elim (t.index_of segment) [
    | none ↦ none
    | some index ↦ item_at items index
  ]
  child_of segment (object members) = lookup_member members segment
  child_of segment other = none

  unfoldable pub parent_ref : (last : String) → Json → Option ParentRef
  parent_ref last (array items) =
      if last == "-"
      then some (in_array items none)
      else elim (t.index_of last) [ none ↦ none | some index ↦ some (in_array items (some index)) ]
  parent_ref last (object members) = some (in_object members last)
  parent_ref last other = none

  unfoldable pub resolve_parent : List String → Json → Option ParentRef
  resolve_parent [] root = none
  resolve_parent (last ∷ []) root = parent_ref last root
  resolve_parent (segment ∷ next ∷ rest) root = elim (child_of segment root) [
    | none ↦ none
    | some child ↦ resolve_parent (next ∷ rest) child
  ]

  -- The document in which the child has been changed to `child`.
  unfoldable pub put_child : String → Json → (child : Json) → Json
  put_child segment (array items) child = elim (t.index_of segment) [
    | none ↦ array items
    | some index ↦ array (set_item items index child)
  ]
  put_child segment (object members) child = object (set_member members segment child)
  put_child segment other child = other

  -- The document in which the parent has been changed to `parent`.
  unfoldable pub put_parent : List String → Json → (parent : Json) → Json
  put_parent [] root parent = root
  put_parent (last ∷ []) root parent = parent
  put_parent (segment ∷ next ∷ rest) root parent = elim (child_of segment root) [
    | none ↦ root
    | some child ↦ put_child segment root (put_parent (next ∷ rest) child parent)
  ]

  -- `parent[key]`, if the key is in range.
  unfoldable pub read_ref : ParentRef → Option Json
  read_ref (in_array items none) = none
  read_ref (in_array items (some index)) = item_at items index
  read_ref (in_object members key) = lookup_member members key

  unfoldable pub read_value : Json → List String → Option Json
  read_value root [] = some root
  read_value root (segment ∷ rest) = elim (resolve_parent (segment ∷ rest) root) [
    | none ↦ none
    | some parent ↦ read_ref parent
  ]

  unfoldable pub is_in : Members → String → Bool
  is_in members key = elim (lookup_member members key) [ none ↦ t.inherits key | some _ ↦ true ]

  unfoldable pub remove_ref : ParentRef → Option Json
  remove_ref (in_array items none) = none
  remove_ref (in_array items (some index)) =
      if leb (count_items items) index then none else some (array (delete_item items index))
  remove_ref (in_object members key) =
      if not (is_in members key) then none else some (object (delete_member members key))

  unfoldable pub add_ref : Json → ParentRef → Option Json
  add_ref value (in_array items none) = some (array (push_item items value))
  add_ref value (in_array items (some index)) =
      if ltb (count_items items) index then none else some (array (insert_item items index value))
  add_ref value (in_object members key) = some (object (set_member members key value))

  unfoldable pub replace_ref : Json → ParentRef → Option Json
  replace_ref value (in_array items none) = none
  replace_ref value (in_array items (some index)) =
      if leb (count_items items) index then none else some (array (set_item items index value))
  replace_ref value (in_object members key) =
      if not (is_in members key) then none else some (object (set_member members key value))

  -- The change `edit` of the parent, in the document.
  unfoldable pub edit_parent : (edit : ParentRef → Option Json) → List String → Json → Option Json
  edit_parent edit segments root = elim (resolve_parent segments root) [
    | none ↦ none
    | some parent ↦ elim (edit parent) [
      | none ↦ none
      | some changed ↦ some (put_parent segments root changed)
    ]
  ]

  unfoldable pub test_at : List String → Json → Json → Option Json
  test_at segments value root = elim (read_value root segments) [
    | none ↦ none
    | some current ↦ if deep_equal t.text_of_index t.before current value then some root else none
  ]

  unfoldable pub apply_at : JsonPatchOp → List String → Json → Option Json
  apply_at (test path value) segments root = test_at segments value root
  apply_at (add path value) [] root = some value
  apply_at (replace path value) [] root = some value
  apply_at (remove path) [] root = none
  apply_at (add path value) (s ∷ segments) root = edit_parent (add_ref value) (s ∷ segments) root
  apply_at (replace path value) (s ∷ segments) root =
      edit_parent (replace_ref value) (s ∷ segments) root
  apply_at (remove path) (s ∷ segments) root = edit_parent remove_ref (s ∷ segments) root

  unfoldable pub apply_one : Json → JsonPatchOp → Option Json
  apply_one root operation = elim (parse_json_pointer (path_of operation)) [
    | none ↦ none
    | some segments ↦ apply_at operation segments root
  ]

  abbrev pub next_document : Json → JsonPatchOp → Option Json
  next_document current operation = elim (apply_one current operation) [
    | none ↦ none
    | some next ↦ unless_null next
  ]

  unfoldable pub apply_json_patch : Json → List JsonPatchOp → Option Json
  apply_json_patch document [] = unless_null document
  apply_json_patch document (operation ∷ patch) = elim (next_document document operation) [
    | none ↦ none
    | some next ↦ apply_json_patch next patch
  ]
