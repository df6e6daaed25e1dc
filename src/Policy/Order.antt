-- ===== src/Policy/Order.antt =====
-- internal/policy/policy.go, Evaluate: the first rule that matches decides, and else the default.
use mcp_audit.Base.{
  ℕ, zero, suc, ◌+◌, String, ◌≡◌, ◌≢◌, ◌⊎◌, inl, inr, refl, ap, true, false, List, [], ◌∷◌, ◌++◌,
  Option, none, some, ◌==◌, ◌∙◌, sym, get_elem?, take, All, arith, Bool-cases, eq_iff,
}
use native.Mathlib.Nat.{zero-add}
use mcp_audit.Policy.{
  Rule, Request, Engine, action_allow, action_deny, scope_tools_only, rule_matches, rule_decision,
  default_decision, not_applied, scan, with_method, evaluate,
}

-- Rule `rule` stands at position `i`, matches, and no rule before it does.
pub record FirstMatch (rules : List Rule) (request : Request) (i : ℕ) (rule : Rule) : Type 0 where
  pub listed : get_elem? rules i ≡ some rule
  pub matched : rule_matches rule request ≡ true
  pub before : All (λ r. rule_matches r request ≡ false) (take i rules)

-- The engine is on and its scope covers the request.
pub record Covers (e : Engine) (request : Request) : Type 0 where
  pub enabled : e.enabled ≡ true
  pub in_scope : (e.scope ≢ scope_tools_only) ⊎ ((with_method request).method ≡ "tools/call")

module _ (default_action : String) (request : Request) where
  scan_first :
      (start i : ℕ) (rules : List Rule) (rule : Rule)
      → FirstMatch rules request i rule
      → scan default_action request start rules ≡ rule_decision (start + i) rule
  unfolding scan
  scan_first start i [] rule f = cc (f.listed)
  scan_first start zero (r ∷ rules) rule f = ground arith
  scan_first start (suc i) (r ∷ rules) rule f = ground (
    arith,
    scan_first (suc start) i rules rule
        (record { listed = f.listed; matched = f.matched; before = f.before.1 }),
  )

  scan_none :
      (start : ℕ) (rules : List Rule)
      → All (λ r. rule_matches r request ≡ false) rules
      → scan default_action request start rules ≡ default_decision default_action
  unfolding scan
  scan_none start [] h = refl
  scan_none start (r ∷ rules) (n, h) = rw n (scan_none (suc start) rules h)

  -- Some rule is the first to match, or none matches.
  first_or_none :
      (rules : List Rule)
      → ((i : ℕ) × (rule : Rule) × FirstMatch rules request i rule)
        ⊎ All (λ r. rule_matches r request ≡ false) rules
  first_or_none [] = inr tt
  first_or_none (r ∷ rules) = elim (Bool-cases (rule_matches r request)) [
    | inl m ↦ inl (0, r, record { listed = refl; matched = m; before = tt })
    | inr n ↦ elim (first_or_none rules) [
      | inl (i, rule, f) ↦
          inl
            (suc i, rule, record { listed = f.listed; matched = f.matched; before = (n, f.before) })
      | inr h ↦ inr (n, h)
    ]
  ]

evaluate-scan :
    (e : Engine) (request : Request)
    → Covers e request
    → evaluate (some e) request ≡ scan e.default_action (with_method request) 0 e.rules
unfolding evaluate
evaluate-scan e request c =
    ground
      (arith, eq_iff e.scope scope_tools_only, eq_iff (with_method request).method "tools/call")

FirstMatch-append :
    (rules more : List Rule) (request : Request) (i : ℕ) (rule : Rule)
    → FirstMatch rules request i rule
    → FirstMatch (rules ++ more) request i rule
FirstMatch-append [] more request i rule f = cc (f.listed)
FirstMatch-append (r ∷ rules) more request zero rule f = record {
  listed = f.listed;
  matched = f.matched;
  before = tt;
}
FirstMatch-append (r ∷ rules) more request (suc i) rule f =
    let rest =
      FirstMatch-append rules more request i rule
        (record { listed = f.listed; matched = f.matched; before = f.before.1 }) in
    record { listed = rest.listed; matched = rest.matched; before = (f.before.0, rest.before) }

-- Where the engine covers a request, the decision is that of the first matching rule, with the
-- rule's index, and that of the default action exactly when no rule matches.
pub evaluate_first_match :
    (e : Engine) (request : Request)
    → Covers e request
    → ((i : ℕ) (rule : Rule)
        → FirstMatch e.rules (with_method request) i rule
        → evaluate (some e) request ≡ rule_decision i rule)
      × (All (λ r. rule_matches r (with_method request) ≡ false) e.rules
          → evaluate (some e) request ≡ default_decision e.default_action)
      × (((i : ℕ) × (rule : Rule) × FirstMatch e.rules (with_method request) i rule)
          ⊎ All (λ r. rule_matches r (with_method request) ≡ false) e.rules)
evaluate_first_match e request c = (
  λ i rule f.
      evaluate-scan e request c
      ∙ scan_first e.default_action (with_method request) 0 i e.rules rule f
      ∙ ap (λ (k : ℕ). rule_decision k rule) (zero-add i),
  λ h. evaluate-scan e request c ∙ scan_none e.default_action (with_method request) 0 e.rules h,
  first_or_none e.default_action (with_method request) e.rules,
)

-- A nil engine, a disabled engine and, under the scope `tools_only`, every method but tools/call
-- are allowed whatever the rules say, and the decision is marked as not applied.
pub evaluate-not_applied :
    (o : Option Engine) (request : Request)
    → ((e : Engine) → o ≡ some e → ¬ Covers e request)
    → evaluate o request ≡ not_applied
unfolding evaluate
evaluate-not_applied none request h = refl
evaluate-not_applied (some e) request h = elim (Bool-cases e.enabled) [
  | inr off ↦ rw off
  | inl on ↦ elim (Bool-cases (e.scope == scope_tools_only)) [
    | inr other ↦ absurd (
        h e refl (record {
          enabled = on;
          in_scope = inl (λ s. cc (other, (eq_iff e.scope scope_tools_only).1 s));
        }))
    | inl tools ↦ elim (Bool-cases ((with_method request).method == "tools/call")) [
      | inl call ↦ absurd (
          h e refl (record {
            enabled = on;
            in_scope = inr ((eq_iff (with_method request).method "tools/call").0 call);
          }))
      | inr n ↦ rw (on, tools, n)
    ]
  ]
]

-- Under the default action deny a covered request is allowed only by a rule: its first match
-- exists and is an allow rule.
pub allowed_needs_allow_rule :
    (e : Engine) (request : Request)
    → Covers e request
    → e.default_action ≡ action_deny
    → (evaluate (some e) request).allowed ≡ true
    → (i : ℕ) × (rule : Rule) × FirstMatch e.rules (with_method request) i rule
      × (rule.action ≡ action_allow)
allowed_needs_allow_rule e request c deny allowed =
    let (by_rule, by_default, which) = evaluate_first_match e request c in
    decide which by_rule by_default
  where
    decide :
        (((i : ℕ) × (rule : Rule) × FirstMatch e.rules (with_method request) i rule)
          ⊎ All (λ r. rule_matches r (with_method request) ≡ false) e.rules)
        → ((i : ℕ) (rule : Rule)
            → FirstMatch e.rules (with_method request) i rule
            → evaluate (some e) request ≡ rule_decision i rule)
        → (All (λ r. rule_matches r (with_method request) ≡ false) e.rules
            → evaluate (some e) request ≡ default_decision e.default_action)
        → (i : ℕ) × (rule : Rule) × FirstMatch e.rules (with_method request) i rule
          × (rule.action ≡ action_allow)
    decide (inl (i, rule, f)) by_rule by_default =
        (i, rule, f, (eq_iff rule.action action_allow).0 (rw (by_rule i rule f) at allowed))
    decide (inr none_match) by_rule by_default = cc (
      by_default none_match,
      (eq_iff action_deny action_allow).0 (rw (by_default none_match, deny) at allowed),
    )

-- Rules added behind a rule that decides a request do not change its decision.
pub evaluate-append_rules :
    (e : Engine) (more : List Rule) (request : Request) (i : ℕ) (rule : Rule)
    → Covers e request
    → FirstMatch e.rules (with_method request) i rule
    → evaluate (some (record e { rules = e.rules ++ more })) request ≡ evaluate (some e) request
evaluate-append_rules e more request i rule c f =
    (evaluate_first_match (record e { rules = e.rules ++ more }) request
        (record { enabled = c.enabled; in_scope = c.in_scope })).0
      i rule (FirstMatch-append e.rules more (with_method request) i rule f)
    ∙ sym ((evaluate_first_match e request c).0 i rule f)
