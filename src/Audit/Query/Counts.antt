-- ===== src/Audit/Query/Counts.antt =====
-- The statistics against counts over the list of entries.
use mcp_audit.Base.{
  inl, inr, ℕ, suc, ◌+◌, String, ◌≡◌, ◌≢◌, refl, ◌∙◌, Bool, true, false, not, ◌&&◌, List, [], ◌∷◌,
  Option, ◌==◌, eq_iff, lookup, lookup-insert, text_cases, arith,
}
use mcp_audit.Audit.{Entry}
use mcp_audit.Audit.Query.{
  StatsAccumulator, failure_type, counted, count_tool, or_zero, bump, add, add_by, add_all,
  new_stats_accumulator,
}

-- How many entries have a property.
abbrev pub count_of : (Entry → Bool) → List Entry → ℕ
count_of p [] = 0
count_of p (e ∷ es) = bump (p e) (count_of p es)

abbrev pub uses_tool : String → Entry → Bool
uses_tool name e = counted e && e.tool_name == name

abbrev pub fails : (String → Option Bool) → Entry → Bool
fails is_error e = counted e && not (failure_type is_error e == "")

count_tool-lookup :
    (name tool : String) (counts : List (String × ℕ))
    → name ≢ ""
    → or_zero (lookup name (count_tool tool counts))
      ≡ bump (tool == name) (or_zero (lookup name counts))
count_tool-lookup name tool counts named = elim (text_cases tool "") [
  | inl (blank, e) ↦
      let other : (tool == name) ≡ false = ground (arith, eq_iff tool name, e, named) in
      rw (blank, other) refl
  | inr (shown, _) ↦ elim (text_cases tool name) [
    | inl (same, e) ↦
        rw (shown, lookup-insert tool name (suc (or_zero (lookup tool counts))) counts, same, e)
          refl
    | inr (other, _) ↦
        rw (shown, lookup-insert tool name (suc (or_zero (lookup tool counts))) counts, other) refl
  ]
]

bump-add : (b : Bool) (n : ℕ) → bump b n ≡ bump b 0 + n
bump-add true n = omega arith
bump-add false n = omega arith

module _ (is_error : String → Option Bool) where
  -- From one accumulator to the next over some entries.
  record Adds (name : String) (es : List Entry) (s s' : StatsAccumulator) : Type 0 where
    total : s'.total ≡ count_of counted es + s.total
    errors : s'.errors ≡ count_of (fails is_error) es + s.errors
    tool :
        or_zero (lookup name s'.tool_counts)
        ≡ count_of (uses_tool name) es + or_zero (lookup name s.tool_counts)

  add_by-Adds :
      (b : Bool) (name : String) (e : Entry) (s : StatsAccumulator)
      → counted e ≡ b
      → name ≢ ""
      → Adds name (e ∷ []) s (add_by b is_error e s)
  add_by-Adds false name e s known named = record {
    total = rw known (omega arith);
    errors = rw known (omega arith);
    tool = rw known (omega arith);
  }
  add_by-Adds true name e s known named = record {
    total = rw known (omega arith);
    errors = rw known (bump-add (not (failure_type is_error e == "")) s.errors);
    tool = rw known (
        count_tool-lookup name e.tool_name s.tool_counts named
        ∙ bump-add (e.tool_name == name) (or_zero (lookup name s.tool_counts)));
  }

  Adds-trans :
      (name : String) (e : Entry) (es : List Entry) (a b d : StatsAccumulator)
      → Adds name (e ∷ []) a b
      → Adds name es b d
      → Adds name (e ∷ es) a d
  Adds-trans name e es a b d p q = record {
    total = omega (arith, p.total, q.total, bump-add (counted e) (count_of counted es));
    errors =
        omega
          (arith, p.errors, q.errors, bump-add (fails is_error e) (count_of (fails is_error) es));
    tool =
        omega (arith, p.tool, q.tool, bump-add (uses_tool name e) (count_of (uses_tool name) es));
  }

  add_all-Adds :
      (name : String) (es : List Entry) (s : StatsAccumulator)
      → name ≢ ""
      → Adds name es s (add_all is_error es s)
  unfolding add_all add
  add_all-Adds name [] s named = record {
    total = omega arith;
    errors = omega arith;
    tool = omega arith;
  }
  add_all-Adds name (e ∷ es) s named =
      Adds-trans name e es s (add is_error e s) (add_all is_error es (add is_error e s))
        (add_by-Adds (counted e) name e s refl named)
        (add_all-Adds name es (add is_error e s) named)

  -- The statistics of a list of entries are counts over it: the total is the number of entries that
  -- count, the errors the number of those with a failure type, and each tool with a non-empty name
  -- has the number of those that name it.
  pub add_all-counts :
      (name : String) (es : List Entry) (day_start day_end : ℕ)
      → name ≢ ""
      → let s = add_all is_error es (new_stats_accumulator day_start day_end) in
        (s.total ≡ count_of counted es)
        × (s.errors ≡ count_of (fails is_error) es)
        × (or_zero (lookup name s.tool_counts) ≡ count_of (uses_tool name) es)
  add_all-counts name es day_start day_end named =
      let a = add_all-Adds name es (new_stats_accumulator day_start day_end) named in
      (omega (arith, a.total), omega (arith, a.errors), omega (arith, a.tool))
