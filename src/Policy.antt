-- ===== src/Policy.antt =====
-- internal/policy/policy.go: the allow and deny engine for MCP operations.
pub mod Match
pub mod Order
pub mod Creation
pub mod Tests
use Prim.Native.Char.{Char}
use mcp_audit.Base.{
  ℕ, suc, ℤ, pos, negsuc, String, Bool, true, false, not, ◌&&◌, ◌||◌, List, [], ◌∷◌, Option, none,
  some, Result, ok, err, ◌>>=◌, ◌==◌, if◌then◌else◌, any,
}
use mcp_audit.Base.Text.{trim_space, to_lower}

abbrev pub action_allow : String
action_allow = "allow"

abbrev pub action_deny : String
action_deny = "deny"

abbrev pub scope_tools_only : String
scope_tools_only = "tools_only"

abbrev pub scope_all_operations : String
scope_all_operations = "all_operations"

abbrev pub default_deny_reason : String
default_deny_reason = "blocked by policy"

-- One rule: a selector for each part of the context, and what to do.
pub record Rule : Type 0 where
  pub id : String
  pub action : String
  pub subject : String
  pub client_id : String
  pub issuer : String
  pub role : String
  pub scope : String
  pub server_id : String
  pub method : String
  pub name : String
  pub tool_name : String
  pub reason : String

pub record Config : Type 0 where
  pub enabled : Bool
  pub default_action : String
  pub scope : String
  pub rules : List Rule

pub record Request : Type 0 where
  pub subject : String
  pub client_id : String
  pub issuer : String
  pub roles : List String
  pub scopes : List String
  pub server_id : String
  pub method : String
  pub name : String
  pub tool_name : String

pub record Decision : Type 0 where
  pub applied : Bool
  pub allowed : Bool
  pub action : String
  pub reason : String
  pub rule_index : ℤ
  pub rule_id : String

pub record Engine : Type 0 where
  pub enabled : Bool
  pub default_action : String
  pub scope : String
  pub rules : List Rule

-- The three refusals of `NewEngine`; a bad rule is named by its index.
pub data ConfigError : Type 0 where
  bad_default_action bad_scope : ConfigError
  bad_rule_action : ℕ → ConfigError

unfoldable pub matches : String → String → Bool
matches pattern value =
    let trimmed = trim_space pattern in
    if trimmed == "" || trimmed == "*" then true else trimmed == value

unfoldable pub matches_any : String → List String → Bool
matches_any pattern values =
    let trimmed = trim_space pattern in
    if trimmed == "" || trimmed == "*" then true else any (λ value. trimmed == value) values

abbrev pub is_action : String → Bool
is_action action = action == action_allow || action == action_deny

abbrev pub or_default : String → String → String
or_default text default = if text == "" then default else text

module _ (table : Char → Char) where
  unfoldable pub normalize_action : String → String
  normalize_action action = to_lower table (trim_space action)

  -- One round of the loop that copies the rules.
  unfoldable pub normalize_rule : Rule → Rule
  normalize_rule rule = record rule {
    id = trim_space rule.id;
    action = normalize_action rule.action;
  }

  -- The loop over the rules, at index `i`.
  unfoldable pub normalize_rules : ℕ → List Rule → Result ConfigError (List Rule)
  normalize_rules i [] = ok []
  normalize_rules i (rule ∷ rules) =
      let rest = normalize_rules (suc i) rules in
      if is_action (normalize_rule rule).action
      then (rest >>= λ done. ok (normalize_rule rule ∷ done))
      else err (bad_rule_action i)

  unfoldable pub new_engine : Config → Result ConfigError Engine
  new_engine config =
      let default_action = or_default (normalize_action config.default_action) action_allow in
      let scope = or_default (to_lower table (trim_space config.scope)) scope_tools_only in
      if not (is_action default_action)
      then err bad_default_action
      else if not (scope == scope_tools_only || scope == scope_all_operations)
      then err bad_scope
      else do
        rules ← normalize_rules 0 config.rules
        ok (record {
          enabled = config.enabled;
          default_action = default_action;
          scope = scope;
          rules = rules;
        })

-- The condition of the loop in `Evaluate`, positively: every selector of the rule fits.
unfoldable pub rule_matches : Rule → Request → Bool
rule_matches rule request =
    matches rule.subject request.subject
    && matches rule.client_id request.client_id
    && matches rule.issuer request.issuer
    && matches_any rule.role request.roles
    && matches_any rule.scope request.scopes
    && matches rule.server_id request.server_id
    && matches rule.method request.method
    && matches rule.name request.name
    && matches rule.tool_name request.tool_name

-- What is returned where the engine does not apply.
abbrev pub not_applied : Decision
not_applied = record {
  applied = false;
  allowed = true;
  action = action_allow;
  reason = "";
  rule_index = negsuc 0;
  rule_id = "";
}

abbrev pub rule_reason : Rule → String
rule_reason rule =
    let reason = trim_space rule.reason in
    if reason == "" && rule.action == action_deny then default_deny_reason else reason

abbrev pub rule_decision : ℕ → Rule → Decision
rule_decision i rule = record {
  applied = true;
  allowed = rule.action == action_allow;
  action = rule.action;
  reason = rule_reason rule;
  rule_index = pos i;
  rule_id = rule.id;
}

abbrev pub default_decision : String → Decision
default_decision default_action = record {
  applied = true;
  allowed = default_action == action_allow;
  action = default_action;
  reason = if default_action == action_deny then "blocked by default policy" else "";
  rule_index = negsuc 0;
  rule_id = "";
}

-- The loop over the rules, from index `i`.
unfoldable pub scan : String → Request → ℕ → List Rule → Decision
scan default_action request i [] = default_decision default_action
scan default_action request i (rule ∷ rules) =
    let rest = scan default_action request (suc i) rules in
    if rule_matches rule request then rule_decision i rule else rest

-- A tool call that names no method.
abbrev pub with_method : Request → Request
with_method request =
    if request.method == "" && not (request.tool_name == "")
    then record request { method = "tools/call" }
    else request

-- `Evaluate`; a nil engine is `none`.
unfoldable pub evaluate : Option Engine → Request → Decision
evaluate none request = not_applied
evaluate (some e) request =
    if not e.enabled
    then not_applied
    else if e.scope == scope_tools_only && not ((with_method request).method == "tools/call")
    then not_applied
    else scan e.default_action (with_method request) 0 e.rules
