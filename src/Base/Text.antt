-- ===== src/Base/Text.antt =====
-- The functions of Go's `strings` and `unicode` packages that the program calls, over the native
-- texts. A text is a list of code points; Go walks the same code points of valid UTF-8.
use Prim.Native.Nat.{ℕ, ◌-◌}
use Prim.Native.Char.{Char, code}
use Prim.Native.String.{String, [], ◌∷◌, char_at}
use mathlib.Core.Bool.{Bool, true, false, ◌&&◌, ◌||◌}
use mathlib.Core.Path.{◌≡◌, refl}
use native.Mathlib.Omega.{arith}
use mcp_audit.Base.Tests.{leb, nat_eq, if◌then◌else◌}

-- `unicode.IsSpace`: the code points with the property White_Space.
unfoldable pub is_space : ℕ → Bool
is_space c =
    leb 9 c && leb c 13
    || nat_eq c 0x20
    || nat_eq c 0x85
    || nat_eq c 0xA0
    || nat_eq c 0x1680
    || leb 0x2000 c && leb c 0x200a
    || nat_eq c 0x2028
    || nat_eq c 0x2029
    || nat_eq c 0x202f
    || nat_eq c 0x205f
    || nat_eq c 0x3000

unfoldable pub trim_left : String → String
trim_left [] = []
trim_left (c ∷ s) = if is_space (code c) then trim_left s else c ∷ s

abbrev is_empty : String → Bool
is_empty [] = true
is_empty (c ∷ s) = false

-- A character in front of an already trimmed rest.
abbrev put_back : Char → String → String
put_back c rest = if is_space (code c) && is_empty rest then [] else c ∷ rest

unfoldable pub trim_right : String → String
trim_right [] = []
trim_right (c ∷ s) = put_back c (trim_right s)

-- `strings.TrimSpace`.
unfoldable pub trim_space : String → String
unfolding trim_left trim_right is_space
trim_space s = trim_right (trim_left s)

-- `unicode.ToLower`: the letters A to Z here, all other code points from 128 on by the Unicode
-- tables, which are the parameter `table`.
unfoldable pub lower_char : (Char → Char) → Char → Char
lower_char table c =
    if leb b'A' (code c) && leb (code c) b'Z'
    then char_at "abcdefghijklmnopqrstuvwxyz" (code c - b'A')
    else if leb 128 (code c)
    then table c
    else c

-- `strings.ToLower`.
unfoldable pub to_lower : (Char → Char) → String → String
unfolding lower_char
to_lower table [] = []
to_lower table (c ∷ s) = lower_char table c ∷ to_lower table s

-- `strings.HasPrefix`.
unfoldable pub has_prefix : String → String → Bool
has_prefix s [] = true
has_prefix [] (d ∷ p) = false
has_prefix (c ∷ s) (d ∷ p) = nat_eq (code c) (code d) && has_prefix s p

-- `strings.Contains`.
unfoldable pub contains : String → String → Bool
unfolding has_prefix
contains [] p = has_prefix [] p
contains (c ∷ s) p = has_prefix (c ∷ s) p || contains s p

trim_right_idempotent : (s : String) → trim_right (trim_right s) ≡ trim_right s
unfolding trim_right
trim_right_idempotent [] = refl
trim_right_idempotent (c ∷ s) = ground (arith, trim_right_idempotent s)
