-- ===== src/Policy/Match.antt =====
-- internal/policy/policy.go: what a selector of a rule accepts.
use mcp_audit.Base.{
  String, ◌≡◌, ◌⊎◌, inl, inr, true, List, [], ◌∷◌, ◌==◌, eq_iff, any, arith, text_cases,
}
use mathlib.Core.List.{Memᴰ}
use mcp_audit.Base.Text.{trim_space}
use mcp_audit.Policy.{matches, matches_any}

-- A selector that leaves its part of the context open.
abbrev pub IsWildcard : String → Type 0
IsWildcard pattern = (trim_space pattern ≡ "") ⊎ (trim_space pattern ≡ "*")

matches_open : (pattern value : String) → IsWildcard pattern → matches pattern value ≡ true
unfolding matches
matches_open pattern value w =
    ground (arith, eq_iff (trim_space pattern) "", eq_iff (trim_space pattern) "*")

matches_same : (pattern value : String) → trim_space pattern ≡ value → matches pattern value ≡ true
unfolding matches
matches_same pattern value e = ground (arith, eq_iff (trim_space pattern) value)

matches_needs :
    (pattern value : String)
    → matches pattern value ≡ true
    → IsWildcard pattern ⊎ (trim_space pattern ≡ value)
unfolding matches
matches_needs pattern value h = ground (
  arith,
  eq_iff (trim_space pattern) "",
  eq_iff (trim_space pattern) "*",
  eq_iff (trim_space pattern) value,
)

-- A selector accepts a value exactly when it is a wildcard or, trimmed, the value itself.
pub matches_iff :
    (pattern value : String)
    → (matches pattern value ≡ true → IsWildcard pattern ⊎ (trim_space pattern ≡ value))
      × (IsWildcard pattern ⊎ (trim_space pattern ≡ value) → matches pattern value ≡ true)
matches_iff pattern value = (matches_needs pattern value, accepts)
  where
    accepts : IsWildcard pattern ⊎ (trim_space pattern ≡ value) → matches pattern value ≡ true
    accepts (inl w) = matches_open pattern value w
    accepts (inr e) = matches_same pattern value e

any_mem : (s : String) (values : List String) → any (λ v. s == v) values ≡ true → Memᴰ s values
any_mem s [] h = cc
any_mem s (v ∷ values) h = elim (text_cases s v) [
  | inl (_, e) ↦ Memᴰ.head e
  | inr (n, _) ↦ Memᴰ.tail (any_mem s values (rw n at h))
]

mem_any : (s : String) (values : List String) → Memᴰ s values → any (λ v. s == v) values ≡ true
mem_any s [] m = elim m [ ]
mem_any s (v ∷ values) (Memᴰ.head e) = rw ((eq_iff s v).1 e)
mem_any s (v ∷ values) (Memᴰ.tail m) = ground (arith, mem_any s values m)

-- A selector of a list accepts exactly when it is a wildcard or, trimmed, stands in the list.
pub matches_any_iff :
    (pattern : String) (values : List String)
    → (matches_any pattern values ≡ true → IsWildcard pattern ⊎ Memᴰ (trim_space pattern) values)
      × (IsWildcard pattern ⊎ Memᴰ (trim_space pattern) values → matches_any pattern values ≡ true)
unfolding matches_any
matches_any_iff pattern values = (needs, accepts)
  where
    needs :
        matches_any pattern values ≡ true → IsWildcard pattern ⊎ Memᴰ (trim_space pattern) values
    needs h = elim (text_cases (trim_space pattern) "") [
      | inl (_, e) ↦ inl (inl e)
      | inr (n, _) ↦ elim (text_cases (trim_space pattern) "*") [
        | inl (_, e) ↦ inl (inr e)
        | inr (m, _) ↦ inr (any_mem (trim_space pattern) values (rw (n, m) at h))
      ]
    ]

    accepts :
        IsWildcard pattern ⊎ Memᴰ (trim_space pattern) values → matches_any pattern values ≡ true
    accepts (inl w) =
        ground (arith, eq_iff (trim_space pattern) "", eq_iff (trim_space pattern) "*")
    accepts (inr m) = ground (arith, mem_any (trim_space pattern) values m)
