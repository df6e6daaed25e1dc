-- ===== src/Base/Scan.antt =====
-- More of Go's package strings, for texts that are cut at a character or at their ends.
use Prim.Native.Nat.{ℕ, suc}
use Prim.Native.Char.{Char, code}
use Prim.Native.String.{String, [], ◌∷◌}
use mathlib.Core.Bool.{Bool, true, false, ◌||◌}
use mathlib.Core.Option.{Option, none, some}
use text.Mathlib.Text.{◌==◌}
use mcp_audit.Base.Tests.{nat_eq, if◌then◌else◌}

abbrev prepend : Char → Option (String × String) → Option (String × String)
prepend c none = none
prepend c (some (before, after)) = some (c ∷ before, after)

-- `strings.Cut` at one character: none where it is missing.
unfoldable pub cut : ℕ → String → Option (String × String)
cut sep [] = none
cut sep (c ∷ s) =
    let rest = cut sep s in if nat_eq (code c) sep then some ([], s) else prepend c rest

-- `strings.ContainsAny` for a test of characters.
unfoldable pub contains_where : (ℕ → Bool) → String → Bool
contains_where test [] = false
contains_where test (c ∷ s) = test (code c) || contains_where test s

-- `strings.Count` of one character.
unfoldable pub count_char : ℕ → String → ℕ
count_char sep [] = 0
count_char sep (c ∷ s) =
    let rest = count_char sep s in if nat_eq (code c) sep then suc rest else rest

-- `strings.TrimLeft` and `strings.TrimRight` for a test of characters.
unfoldable pub trim_left_where : (ℕ → Bool) → String → String
trim_left_where test [] = []
trim_left_where test (c ∷ s) =
    let rest = trim_left_where test s in if test (code c) then rest else c ∷ s

abbrev unless_blank : (ℕ → Bool) → Char → String → String
unless_blank test c [] = if test (code c) then [] else c ∷ []
unless_blank test c (d ∷ s) = c ∷ d ∷ s

unfoldable pub trim_right_where : (ℕ → Bool) → String → String
trim_right_where test [] = []
trim_right_where test (c ∷ s) = unless_blank test c (trim_right_where test s)

-- `strings.TrimPrefix`.
unfoldable pub drop_prefix : String → String → Option String
drop_prefix s [] = some s
drop_prefix [] (d ∷ p) = none
drop_prefix (c ∷ s) (d ∷ p) =
    let rest = drop_prefix s p in if nat_eq (code c) (code d) then rest else none

abbrev pub or_whole : String → Option String → String
or_whole s none = s
or_whole s (some rest) = rest

unfoldable pub trim_prefix : String → String → String
unfolding drop_prefix
trim_prefix s p = or_whole s (drop_prefix s p)

abbrev behind : Char → Option String → Option String
behind c none = none
behind c (some s) = some (c ∷ s)

-- The text before a suffix, where it has that suffix.
unfoldable pub drop_suffix : String → String → Option String
drop_suffix [] p = elim p [ [] ↦ some [] | d ∷ q ↦ none ]
drop_suffix (c ∷ s) p =
    let rest = drop_suffix s p in if ((c ∷ s) == p) then some [] else behind c rest

abbrev pub is_some : Option String → Bool
is_some none = false
is_some (some s) = true

unfoldable pub has_suffix : String → String → Bool
unfolding drop_suffix
has_suffix s p = is_some (drop_suffix s p)

-- `strings.TrimSuffix`.
unfoldable pub trim_suffix : String → String → String
unfolding drop_suffix
trim_suffix s p = or_whole s (drop_suffix s p)
