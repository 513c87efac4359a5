-- ===== src/Base/Text.antt =====
-- The length of a text, which counts UTF-16 units.
use Prim.Native.Nat.{ℕ, ◌+◌}
use Prim.Native.Char.{Char, code}
use Prim.Native.String.{String, [], ◌∷◌, ◌++◌}
use mathlib.Core.Path.{◌≡◌}
use text.Mathlib.TextLemmas.{nil-append, cons-append}
use native.Mathlib.Omega.{arith}
use forge_room.Base.Tests.{ltb, if◌then◌else◌}

abbrev utf16_units : Char → ℕ
utf16_units c = if ltb (code c) 65536 then 1 else 2

-- `text.length`
unfoldable pub text_length : String → ℕ
text_length [] = 0
text_length (c ∷ s) = utf16_units c + text_length s

pub text_length-append : (s r : String) → text_length (s ++ r) ≡ text_length s + text_length r
unfolding text_length
text_length-append [] r = rw (nil-append r) (omega arith)
text_length-append (c ∷ s) r = rw (cons-append c s r) (omega (arith, text_length-append s r))
