-- ===== src/Base/Maps.antt =====
-- Go's maps with text keys, as association lists. `insert` replaces in place, so that keys stay
-- distinct; the order of the list stands for the order in which a `range` loop happens to go.
use Prim.Native.String.{String}
use mathlib.Core.Path.{◌≡◌, refl, sym, ap}
use mathlib.Core.Logic.{◌≢◌, inl, inr}
use mathlib.Core.Option.{Option, none, some}
use mathlib.Core.List.{List, [], ◌∷◌}
use native.Mathlib.Omega.{arith}
use text.Mathlib.Text.{◌==◌}
use text.Mathlib.TextEquality.{eq_iff}
use mcp_audit.Base.Tests.{if◌then◌else◌, text_cases}

module _ {ℓ} {V : Type ℓ} where
  abbrev pub lookup : String → List (String × V) → Option V
  lookup key [] = none
  lookup key ((other, x) ∷ rest) = if other == key then some x else lookup key rest

  abbrev pub insert : String → V → List (String × V) → List (String × V)
  insert key x [] = (key, x) ∷ []
  insert key x ((other, y) ∷ rest) =
      if other == key then (key, x) ∷ rest else (other, y) ∷ insert key x rest

  abbrev pub delete : String → List (String × V) → List (String × V)
  delete key [] = []
  delete key ((other, y) ∷ rest) =
      if other == key then delete key rest else (other, y) ∷ delete key rest

  pub lookup-insert :
      (key other : String) (x : V) (rest : List (String × V))
      → lookup other (insert key x rest) ≡ (if key == other then some x else lookup other rest)
  lookup-insert key other x [] = refl
  lookup-insert key other x ((third, y) ∷ rest) = ground (
    arith,
    eq_iff key other,
    eq_iff third key,
    eq_iff third other,
    lookup-insert key other x rest,
  )

  pub lookup-delete :
      (key other : String) (rest : List (String × V))
      → lookup other (delete key rest) ≡ (if key == other then none else lookup other rest)
  lookup-delete key other [] = ground arith
  lookup-delete key other ((third, y) ∷ rest) =
      ground (
        arith,
        eq_iff key other,
        eq_iff third key,
        eq_iff third other,
        lookup-delete key other rest,
      )

  -- No key stands twice.
  abbrev pub Absent : String → List (String × V) → Type 0
  Absent key [] = Unit
  Absent key ((other, y) ∷ rest) = (other ≢ key) × Absent key rest

  abbrev pub Distinct : List (String × V) → Type 0
  Distinct [] = Unit
  Distinct ((other, y) ∷ rest) = Absent other rest × Distinct rest

  pub Absent-of_lookup :
      (key : String) (rest : List (String × V)) → lookup key rest ≡ none → Absent key rest
  Absent-of_lookup key [] h = tt
  Absent-of_lookup key ((other, y) ∷ rest) h =
      (ground (arith, eq_iff other key, h), Absent-of_lookup key rest (ground (arith, h)))

  pub lookup_of_Absent :
      (key : String) (rest : List (String × V)) → Absent key rest → lookup key rest ≡ none
  lookup_of_Absent key [] h = refl
  lookup_of_Absent key ((other, y) ∷ rest) (n, h) =
      ground (arith, eq_iff other key, lookup_of_Absent key rest h)

  pub Absent-insert :
      (key other : String) (x : V) (rest : List (String × V))
      → key ≢ other
      → Absent other rest
      → Absent other (insert key x rest)
  Absent-insert key other x [] n h = (n, tt)
  Absent-insert key other x ((third, y) ∷ rest) n (p, h) =
      ground (arith, Absent-insert key other x rest n h)

  pub Distinct-insert :
      (key : String) (x : V) (rest : List (String × V))
      → Distinct rest
      → Distinct (insert key x rest)
  Distinct-insert key x [] h = (tt, tt)
  Distinct-insert key x ((third, y) ∷ rest) (a, h) = elim (text_cases third key) [
    | inl (t, e) ↦ rw (t, ← e) (a, h)
    | inr (f, n) ↦
        rw f (Absent-insert key third x rest (λ e. n (sym e)) a, Distinct-insert key x rest h)
  ]

  pub Absent-delete :
      (key other : String) (rest : List (String × V))
      → Absent other rest
      → Absent other (delete key rest)
  Absent-delete key other [] h = tt
  Absent-delete key other ((third, y) ∷ rest) (p, h) =
      ground (arith, Absent-delete key other rest h)

  pub Distinct-delete :
      (key : String) (rest : List (String × V)) → Distinct rest → Distinct (delete key rest)
  Distinct-delete key [] h = tt
  Distinct-delete key ((third, y) ∷ rest) (a, h) =
      ground (arith, Distinct-delete key rest h, Absent-delete key third rest a)

  pub delete-Absent :
      (key : String) (rest : List (String × V)) → Absent key rest → delete key rest ≡ rest
  delete-Absent key [] h = refl
  delete-Absent key ((other, y) ∷ rest) (n, h) = elim (text_cases other key) [
    | inl (_, same) ↦ absurd (n same)
    | inr (shown, _) ↦ rw shown (ap (λ t. (other, y) ∷ t) (delete-Absent key rest h))
  ]
