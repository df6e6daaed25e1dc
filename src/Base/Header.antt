-- ===== src/Base/Header.antt =====
-- Go's `http.Header`: the values of each key, in their order. A key is in the canonical form that
-- `Add`, `Get` and `Values` give it; the texts of this library are written in that form.
use Prim.Native.String.{String}
use mathlib.Core.Option.{Option, none, some}
use mathlib.Core.List.{List, [], ◌∷◌}
use mcp_audit.Base.Maps.{lookup, insert}

abbrev pub Header : Type 0
Header = List (String × List String)

abbrev pub or_no_values : Option (List String) → List String
or_no_values none = []
or_no_values (some vs) = vs

abbrev pub values : String → Header → List String
values key h = or_no_values (lookup key h)

abbrev pub first_value : List String → String
first_value [] = ""
first_value (v ∷ vs) = v

-- `Get`: the first value, or the empty text.
abbrev pub get : String → Header → String
get key h = first_value (values key h)

abbrev pub set : String → String → Header → Header
set key value h = insert key (value ∷ []) h
