-- ===== src/AgUi/Patch/Values.antt =====
-- Arrays, objects and `deepEqual` of packages/integrations/ag-ui/src/json-patch.ts.
use forge_room.Base.{
  ℕ, suc, zero, String, Bool, true, false, ◌&&◌, Option, none, some, if◌then◌else◌, List, [], ◌∷◌,
  sort, ◌==◌, string_eq, nat_eq_instance,
}
use forge_room.Base.Json.{
  Json, Members, no_members, member, Items, no_items, item, object, array, text, natural_number,
  other_number, boolean, null, lookup_member,
}

abbrev pub count_items : Items → ℕ
count_items no_items = 0
count_items (item first others) = suc (count_items others)

-- `items[index]`, `none` out of range.
abbrev pub item_at : Items → ℕ → Option Json
item_at no_items index = none
item_at (item first others) zero = some first
item_at (item first others) (suc index) = item_at others index

-- `items[index] = value`, for an index in range.
abbrev pub set_item : Items → ℕ → Json → Items
set_item no_items index value = no_items
set_item (item first others) zero value = item value others
set_item (item first others) (suc index) value = item first (set_item others index value)

-- `items.splice(index, 0, value)`
abbrev pub insert_item : Items → ℕ → Json → Items
insert_item items zero value = item value items
insert_item no_items (suc index) value = item value no_items
insert_item (item first others) (suc index) value = item first (insert_item others index value)

-- `items.splice(index, 1)`
abbrev pub delete_item : Items → ℕ → Items
delete_item no_items index = no_items
delete_item (item first others) zero = others
delete_item (item first others) (suc index) = item first (delete_item others index)

abbrev pub push_item : Items → Json → Items
push_item no_items value = item value no_items
push_item (item first others) value = item first (push_item others value)

-- `members[key] = value`: a new property stands last.
abbrev pub set_member : Members → String → Json → Members
set_member no_members key value = member key value no_members
set_member (member name old others) key value =
    let rest = set_member others key value in
    if name == key then member name value others else member name old rest

-- `delete members[key]`
abbrev pub delete_member : Members → String → Members
delete_member no_members key = no_members
delete_member (member name value others) key =
    let rest = delete_member others key in if name == key then others else member name value rest

-- `Object.keys`
abbrev pub names_of : Members → List String
names_of no_members = []
names_of (member name value others) = name ∷ names_of others

abbrev pub same_texts : List String → List String → Bool
same_texts [] [] = true
same_texts (x ∷ xs) (y ∷ ys) = x == y && same_texts xs ys
same_texts [] (y ∷ ys) = false
same_texts (x ∷ xs) [] = false

abbrev pub same_boolean : Bool → Bool → Bool
same_boolean true b = b
same_boolean false true = false
same_boolean false false = true

-- `Object.keys` of an array: the texts of its indexes, from `index`.
abbrev pub index_names : (text_of : ℕ → String) (index : ℕ) → Items → List String
index_names text_of index no_items = []
index_names text_of index (item first others) =
    text_of index ∷ index_names text_of (suc index) others

-- An array as the object of its own properties, from `index`.
abbrev pub members_of_items : (text_of : ℕ → String) (index : ℕ) → Items → Members
members_of_items text_of index no_items = no_members
members_of_items text_of index (item first others) =
    member (text_of index) first (members_of_items text_of (suc index) others)

-- `text_of` is the key of an index, `before` the order of `sort`.
module _ (text_of : ℕ → String) (before : String → String → Bool) where
  -- Whether the sorted keys of two objects are the same.
  unfoldable pub same_names : (left right : List String) → Bool
  same_names left right = same_texts (sort before left) (sort before right)

  -- An array and an object are compared by their keys too.
  unfoldable mutual
    pub deep_equal : Json → Json → Bool
    deep_equal (object left) (object right) =
        same_names (names_of left) (names_of right) && equal_members left right
    deep_equal (object left) (array right) =
        same_names (names_of left) (index_names text_of 0 right)
        && equal_members left (members_of_items text_of 0 right)
    deep_equal (array left) (object right) =
        same_names (index_names text_of 0 left) (names_of right) && equal_indexes 0 left right
    deep_equal (array left) (array right) = equal_items left right
    deep_equal (text left) (text right) = left == right
    deep_equal (natural_number left) (natural_number right) = left == right
    deep_equal (other_number left) (other_number right) = left == right
    deep_equal (boolean left) (boolean right) = same_boolean left right
    deep_equal null null = true
    deep_equal left right = false

    -- Each property of the left object is equal to that of the right one.
    pub equal_members : Members → Members → Bool
    equal_members no_members right = true
    equal_members (member name value others) right =
        elim (lookup_member right name) [ none ↦ false | some found ↦ deep_equal value found ]
        && equal_members others right

    -- Each item, from the index on, is equal to the property of its index.
    pub equal_indexes : (index : ℕ) → Items → Members → Bool
    equal_indexes index no_items right = true
    equal_indexes index (item value others) right =
        elim (lookup_member right (text_of index)) [
          | none ↦ false
          | some found ↦ deep_equal value found
        ]
        && equal_indexes (suc index) others right

    pub equal_items : Items → Items → Bool
    equal_items no_items no_items = true
    equal_items (item a left) (item b right) = deep_equal a b && equal_items left right
    equal_items no_items (item b right) = false
    equal_items (item a left) no_items = false
