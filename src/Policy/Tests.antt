-- ===== src/Policy/Tests.antt =====
-- Runs of the policy engine, and its theorems at concrete rules and requests.
use Prim.Native.Char.{Char}
use mcp_audit.Base.{String, ◌≡◌, inl, inr, refl, true, [], ◌∷◌, some, ok, err, eq_iff}
use mcp_audit.Base.Text.{trim_space, to_lower}
use mcp_audit.Policy.{
  Rule, Config, Request, Engine, bad_rule_action, action_allow, action_deny, scope_tools_only,
  matches, matches_any, rule_matches, rule_decision, with_method, evaluate, new_engine,
  normalize_action, normalize_rules, normalize_rule,
}
use mcp_audit.Policy.Order.{FirstMatch, Covers, evaluate_first_match}
use mcp_audit.Policy.Creation.{IsValid, Acceptable, new_engine_iff}

abbrev ascii : Char → Char
ascii c = c

abbrev blank : Rule
blank = record {
  id = "";
  action = "";
  subject = "";
  client_id = "";
  issuer = "";
  role = "";
  scope = "";
  server_id = "";
  method = "";
  name = "";
  tool_name = "";
  reason = "";
}

abbrev allow_ops : Rule
allow_ops = record blank { id = "ops"; action = action_allow; role = " ops " }

abbrev deny_rm : Rule
deny_rm = record blank { id = "rm"; action = action_deny; tool_name = "rm" }

abbrev engine : Engine
engine = record {
  enabled = true;
  default_action = action_deny;
  scope = scope_tools_only;
  rules = deny_rm ∷ allow_ops ∷ [];
}

abbrev call : String → Request
call tool = record {
  subject = "ann";
  client_id = "cli";
  issuer = "static";
  roles = "dev" ∷ "ops" ∷ [];
  scopes = [];
  server_id = "srv";
  method = "tools/call";
  name = tool;
  tool_name = tool;
}

abbrev listing : Request
listing = record (call "ls") { method = "tools/list"; tool_name = "" }

abbrev covered : (tool : String) → Covers engine (call tool)
covered tool = record { enabled = refl; in_scope = inr refl }

abbrev first_rm : FirstMatch engine.rules (with_method (call "rm")) 0 deny_rm
unfolding rule_matches matches matches_any trim_space
first_rm = record { listed = refl; matched = refl; before = tt }

abbrev first_ops : FirstMatch engine.rules (with_method (call "ls")) 1 allow_ops
unfolding rule_matches matches matches_any trim_space
first_ops = record { listed = refl; matched = refl; before = (refl, tt) }

evaluate_first_match_example : evaluate (some engine) (call "rm") ≡ rule_decision 0 deny_rm
unfolding first_rm
evaluate_first_match_example =
    (evaluate_first_match engine (call "rm") (covered "rm")).0 0 deny_rm first_rm

not_covered : ¬ Covers engine listing
not_covered c = elim c.in_scope [
  | inl n ↦ n refl
  | inr e ↦ cc ((eq_iff "tools/list" "tools/call").1 e)
]

abbrev config : Config
config = record {
  enabled = true;
  default_action = " DENY ";
  scope = "";
  rules = record deny_rm { action = "Deny" } ∷ [];
}

abbrev made : Engine
made = record {
  enabled = true;
  default_action = action_deny;
  scope = scope_tools_only;
  rules = deny_rm ∷ [];
}

config_runs : new_engine ascii config ≡ ok made
unfolding new_engine normalize_rules normalize_rule normalize_action to_lower trim_space
config_runs = refl

new_engine_iff_example : Acceptable ascii config × IsValid made
new_engine_iff_example = (new_engine_iff ascii config).1 made config_runs

abbrev misspelt : Config
misspelt = record config { rules = deny_rm ∷ record deny_rm { action = "drop" } ∷ [] }

misspelt_fails : new_engine ascii misspelt ≡ err (bad_rule_action 1)
unfolding new_engine normalize_rules normalize_rule normalize_action to_lower trim_space
misspelt_fails = refl
