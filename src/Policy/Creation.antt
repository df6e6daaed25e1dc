-- ===== src/Policy/Creation.antt =====
-- internal/policy/policy.go, NewEngine: what a configuration has to satisfy, and what an engine
-- made from it guarantees.
use Prim.Native.Char.{Char}
use mcp_audit.Base.{
  ℕ, suc, ◌+◌, String, ◌≡◌, ◌≢◌, ◌⊎◌, inl, inr, refl, ok_inj, true, false, List, [], ◌∷◌, map, some,
  ok, err, >>=-eq-ok, Result-cases, ◌==◌, ◌||◌, All, arith, Bool-cases, eq_iff, get_elem?, take,
}
use mathlib.Core.Path.{subst}
use mcp_audit.Base.Text.{trim_space, to_lower}
use mcp_audit.Policy.{
  Rule, Config, Request, Engine, action_allow, action_deny, scope_tools_only, scope_all_operations,
  is_action, normalize_action, normalize_rule, normalize_rules, ConfigError, bad_rule_action,
  or_default, new_engine, scan, default_deny_reason, with_method, evaluate,
}

abbrev pub IsAction : String → Type 0
IsAction action = (action ≡ action_allow) ⊎ (action ≡ action_deny)

is_action_sound : (action : String) → is_action action ≡ true → IsAction action
is_action_sound action h = ground (arith, eq_iff action action_allow, eq_iff action action_deny)

is_action_complete : (action : String) → IsAction action → is_action action ≡ true
is_action_complete action h = ground (arith, eq_iff action action_allow, eq_iff action action_deny)

-- What `Evaluate` relies on.
pub record IsValid (e : Engine) : Type 0 where
  pub default_action : IsAction e.default_action
  pub scope : (e.scope ≡ scope_tools_only) ⊎ (e.scope ≡ scope_all_operations)
  pub rules : All (λ r. IsAction r.action) e.rules

module _ (table : Char → Char) where
  abbrev pub AcceptableRule : Rule → Type 0
  AcceptableRule r = IsAction (normalize_action table r.action)

  -- A configuration that names only known actions and a known scope, blank ones aside.
  pub record Acceptable (c : Config) : Type 0 where
    pub default_action :
        IsAction (or_default (normalize_action table c.default_action) action_allow)
    pub scope :
        (or_default (to_lower table (trim_space c.scope)) scope_tools_only ≡ scope_tools_only)
        ⊎ (or_default (to_lower table (trim_space c.scope)) scope_tools_only ≡ scope_all_operations)
    pub rules : All AcceptableRule c.rules

  normalize_rule-action :
      (r : Rule) → (normalize_rule table r).action ≡ normalize_action table r.action
  unfolding normalize_rule
  normalize_rule-action r = refl

  normalize_rules_accepts :
      (i : ℕ) (rules : List Rule)
      → All AcceptableRule rules
      → normalize_rules table i rules ≡ ok (map (normalize_rule table) rules)
  unfolding normalize_rules
  normalize_rules_accepts i [] h = refl
  normalize_rules_accepts i (r ∷ rules) (a, h) = rw (
    normalize_rule-action r,
    is_action_complete (normalize_action table r.action) a,
    normalize_rules_accepts (suc i) rules h,
  )

  -- The index of the error is that of the first rule with an unknown action.
  normalize_rules_refuses :
      (start : ℕ) (rules : List Rule) {e : ConfigError}
      → normalize_rules table start rules ≡ err e
      → (i : ℕ) × (r : Rule) × (e ≡ bad_rule_action (start + i))
        × (get_elem? rules i ≡ some r)
        × (¬ AcceptableRule r)
        × All AcceptableRule (take i rules)
  unfolding normalize_rules
  normalize_rules_refuses start [] {e} h = cc
  normalize_rules_refuses start (r ∷ rules) {e} h =
      elim (Bool-cases (is_action (normalize_rule table r).action)) [
        | inr bad ↦ (
          0,
          r,
          ground (arith, bad, h),
          refl,
          (λ a. cc (bad, is_action_complete _ a, normalize_rule-action r)),
          tt,
        )
        | inl good ↦ elim (Result-cases (normalize_rules table (suc start) rules)) [
          | inl (done, e) ↦ cc (rw (good, e) at h)
          | inr (e', failed) ↦
              let (i, rule, same, listed, unknown, before) =
                normalize_rules_refuses (suc start) rules failed in
              (
                suc i,
                rule,
                ground (arith, good, h, failed, same),
                listed,
                unknown,
                (is_action_sound _ (rw (← normalize_rule-action r) good), before),
              )
        ]
      ]

  scope_known :
      (c : Config)
      → Acceptable c
      → (or_default (to_lower table (trim_space c.scope)) scope_tools_only == scope_tools_only
          || or_default (to_lower table (trim_space c.scope)) scope_tools_only
            == scope_all_operations)
        ≡ true
  scope_known c a = known _ a.scope
    where
      known :
          (s : String)
          → (s ≡ scope_tools_only) ⊎ (s ≡ scope_all_operations)
          → (s == scope_tools_only || s == scope_all_operations) ≡ true
      known s h = ground (arith, eq_iff s scope_tools_only, eq_iff s scope_all_operations)

  -- A refusal that names a rule names the first rule with an unknown action, and says so by its
  -- index.
  pub new_engine_refuses :
      (c : Config) (n : ℕ)
      → new_engine table c ≡ err (bad_rule_action n)
      → (r : Rule) × (get_elem? c.rules n ≡ some r)
        × (¬ AcceptableRule r)
        × All AcceptableRule (take n c.rules)
  unfolding new_engine
  new_engine_refuses c n h = elim (Result-cases (normalize_rules table 0 c.rules)) [
    | inl (done, e) ↦ absurd (ground (arith, e, h))
    | inr (x, e) ↦
        let (i, r, same, listed, unknown, before) = normalize_rules_refuses 0 c.rules e in
        let index : n ≡ i = ground (arith, h, e, same) in rw index (r, listed, unknown, before)
  ]

  new_engine_accepts :
      (c : Config)
      → Acceptable c
      → new_engine table c
        ≡ ok (record {
          enabled = c.enabled;
          default_action = or_default (normalize_action table c.default_action) action_allow;
          scope = or_default (to_lower table (trim_space c.scope)) scope_tools_only;
          rules = map (normalize_rule table) c.rules;
        })
  unfolding new_engine
  new_engine_accepts c a = rw (
    is_action_complete _ a.default_action,
    scope_known c a,
    normalize_rules_accepts 0 c.rules a.rules,
  )

  normalize_rules_needs :
      (i : ℕ) (rules : List Rule) {done : List Rule}
      → normalize_rules table i rules ≡ ok done
      → All AcceptableRule rules × All (λ r. IsAction r.action) done
  unfolding normalize_rules
  normalize_rules_needs i [] {done} h = (tt, ground (arith, h))
  normalize_rules_needs i (r ∷ rules) {done} h =
      elim (Bool-cases (is_action (normalize_rule table r).action)) [
        | inr bad ↦ cc (rw bad at h)
        | inl good ↦
            let (rest, e, same) =
              >>=-eq-ok (normalize_rules table (suc i) rules) _ (rw good at h) in
            let (below, above) = normalize_rules_needs (suc i) rules e in
            let action : IsAction (normalize_rule table r).action = is_action_sound _ good in
            ((rw (← normalize_rule-action r) action, below), ground (arith, same, action, above))
      ]

  known_scope :
      (s : String)
      → (s == scope_tools_only || s == scope_all_operations) ≡ true
      → (s ≡ scope_tools_only) ⊎ (s ≡ scope_all_operations)
  known_scope s h = ground (arith, eq_iff s scope_tools_only, eq_iff s scope_all_operations)

  -- The three tests of `NewEngine`, read off a successful call.
  new_engine_needs :
      (c : Config) {e : Engine} → new_engine table c ≡ ok e → Acceptable c × IsValid e
  unfolding new_engine
  new_engine_needs c {e} h =
      elim (Bool-cases
        (is_action (or_default (normalize_action table c.default_action) action_allow))) [
          | inr bad ↦ cc (rw bad at h)
          | inl good ↦
              elim (Bool-cases (
                or_default (to_lower table (trim_space c.scope)) scope_tools_only
                  == scope_tools_only
                || or_default (to_lower table (trim_space c.scope)) scope_tools_only
                  == scope_all_operations)) [
                    | inr unknown ↦ cc (rw (good, unknown) at h)
                    | inl known ↦
                        let (rules, done, same) =
                          >>=-eq-ok (normalize_rules table 0 c.rules) _ (rw (good, known) at h) in
                        let (below, above) = normalize_rules_needs 0 c.rules done in
                        let action = is_action_sound _ good in
                        let scope = known_scope _ known in
                        (
                          record { default_action = action; scope = scope; rules = below },
                          subst IsValid (ok_inj same)
                              (record { default_action = action; scope = scope; rules = above }),
                        )
                  ]
        ]

  -- `NewEngine` succeeds exactly on the acceptable configurations, and the engine that it returns
  -- holds the normalised default action, scope and rules, in their order.
  pub new_engine_iff :
      (c : Config)
      → (Acceptable c
          → new_engine table c
            ≡ ok (record {
              enabled = c.enabled;
              default_action = or_default (normalize_action table c.default_action) action_allow;
              scope = or_default (to_lower table (trim_space c.scope)) scope_tools_only;
              rules = map (normalize_rule table) c.rules;
            }))
        × ((e : Engine) → new_engine table c ≡ ok e → Acceptable c × IsValid e)
  new_engine_iff c = (new_engine_accepts c, λ e h. new_engine_needs c h)

scan_denied :
    (default_action : String) (request : Request) (i : ℕ) (rules : List Rule)
    → IsAction default_action
    → All (λ r. IsAction r.action) rules
    → (scan default_action request i rules).allowed ≡ false
    → ((scan default_action request i rules).action ≡ action_deny)
      × ((scan default_action request i rules).reason ≢ "")
unfolding scan
scan_denied default_action request i [] (inl allow) h denied = cc (allow, denied)
scan_denied default_action request i [] (inr deny) h denied =
    (deny, rw deny (λ e. cc ((eq_iff "blocked by default policy" "").1 e)))
scan_denied default_action request i (r ∷ rules) known (k, h) denied = ground (
  arith,
  scan_denied default_action request (suc i) rules known h,
  eq_iff r.action action_allow,
  eq_iff r.action action_deny,
  eq_iff (trim_space r.reason) "",
  eq_iff default_deny_reason "",
)

-- Every refusal by an engine that `NewEngine` made carries the action deny and a reason.
pub denied_has_reason :
    (table : Char → Char) (c : Config) (e : Engine) (request : Request)
    → new_engine table c ≡ ok e
    → (evaluate (some e) request).allowed ≡ false
    → ((evaluate (some e) request).action ≡ action_deny) × ((evaluate (some e) request).reason ≢ "")
unfolding evaluate
denied_has_reason table c e request made denied =
    let (_, valid) = new_engine_needs table c made in
    ground (
      arith,
      scan_denied e.default_action (with_method request) 0 e.rules valid.default_action valid.rules,
    )
