-- ===== src/Base/Json.antt =====
-- JSON values. A number is a natural number that a double holds exactly, or any other number by
-- the text that `JSON.stringify` prints for it; there is no minus zero.
use Prim.Native.Nat.{ℕ}
use Prim.Native.String.{String}
use mathlib.Core.Bool.{Bool}
use mathlib.Core.Option.{Option, none, some}
use forge_room.Base.Tests.{if◌then◌else◌, ◌==◌, string_eq}

mutual
  -- The own properties of an object, in their order.
  pub data Members : Type 0 where
    no_members : Members
    member : (name : String) (value : Json) (others : Members) → Members

  pub data Items : Type 0 where
    no_items : Items
    item : (first : Json) (others : Items) → Items

  pub data Json : Type 0 where
    object : Members → Json
    array : Items → Json
    text : String → Json
    natural_number : ℕ → Json
    other_number : String → Json
    boolean : Bool → Json
    null : Json

-- The own property of a name.
abbrev pub lookup_member : Members → String → Option Json
lookup_member no_members key = none
lookup_member (member name value others) key =
    let rest = lookup_member others key in if name == key then some value else rest
