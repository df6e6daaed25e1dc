-- ===== src/Base/Words.antt =====
-- `strings.Fields`.
use Prim.Native.Char.{Char, code}
use Prim.Native.String
use mathlib.Core.Bool.{Bool, true}
use mathlib.Core.List.{List, [], ◌∷◌}
use mcp_audit.Base.Tests.{if◌then◌else◌}
use mcp_audit.Base.Text.{is_space}

-- The end of the text, or a space, comes next.
abbrev at_end : String.String → Bool
at_end String.[] = true
at_end (String.◌∷◌ c s) = is_space (code c)

abbrev extended : Char → List String.String → List String.String
extended c [] = (String.◌∷◌ c String.[]) ∷ []
extended c (w ∷ ws) = String.◌∷◌ c w ∷ ws

unfoldable pub fields : String.String → List String.String
fields String.[] = []
fields (String.◌∷◌ c s) =
    let rest = fields s in
    if is_space (code c)
    then rest
    else if at_end s
    then (String.◌∷◌ c String.[]) ∷ rest
    else extended c rest
