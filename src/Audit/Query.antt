-- ===== src/Audit/Query.antt =====
-- internal/audit/logger.go: the filter of queries and the statistics over a stream of entries.
--
-- The bounds of the day come from Go's calendar and are arguments. The error rate is kept as its
-- two counts, where the source divides them as floating point numbers.
pub mod Counts
use mcp_audit.Base.{
  ℕ, zero, suc, String, Bool, true, false, not, ◌&&◌, ◌||◌, List, [], ◌∷◌, Option, none, some, ◌==◌,
  if◌then◌else◌, ltb, nat_eq, lookup, insert,
}
use mcp_audit.Audit.{Entry, RpcError, Time, direction_client_to_server}
use mcp_audit.Audit.Outcome.{outcome_valid, success}

-- `QueryFilter` without its limit; an empty text and the zero time ask for nothing.
pub record QueryFilter : Type 0 where
  pub method : String
  pub tool_name : String
  pub client_id : String
  pub from_time : Time
  pub to_time : Time

abbrev pub asks : String → String → Bool
asks wanted value = wanted == "" || value == wanted

-- `MatchFilter`.
unfoldable pub match_filter : Entry → QueryFilter → Bool
match_filter e f =
    if not (asks f.method e.method)
    then false
    else if not (asks f.tool_name e.tool_name)
    then false
    else if not (asks f.client_id e.client_id)
    then false
    else if not (nat_eq f.from_time 0) && ltb e.timestamp f.from_time
    then false
    else if not (nat_eq f.to_time 0) && ltb f.to_time e.timestamp
    then false
    else true

-- `FailureType`. `is_error` is what `json.Unmarshal` reads from a result: none where it fails.
abbrev pub tool_error : Option Bool → String
tool_error none = ""
tool_error (some true) = "tool_error"
tool_error (some false) = ""

abbrev pub outcome_error : (String → Option Bool) → Entry → String
outcome_error is_error e =
    if outcome_valid e.outcome && not (e.outcome == success)
    then e.outcome
    else tool_error (is_error e.result)

abbrev pub failure_by : Option RpcError → (String → Option Bool) → Entry → String
failure_by none is_error e = outcome_error is_error e
failure_by (some x) is_error e = "rpc_error"

unfoldable pub failure_type : (String → Option Bool) → Entry → String
failure_type is_error e = failure_by e.error is_error e

pub record StatsAccumulator : Type 0 where
  pub day_start : Time
  pub day_end : Time
  pub today : ℕ
  pub total : ℕ
  pub errors : ℕ
  pub tool_counts : List (String × ℕ)

-- `NewStatsAccumulator`, by the bounds of the day.
abbrev pub new_stats_accumulator : Time → Time → StatsAccumulator
new_stats_accumulator day_start day_end = record {
  day_start = day_start;
  day_end = day_end;
  today = 0;
  total = 0;
  errors = 0;
  tool_counts = [];
}

-- A missing key of the map counts as 0.
abbrev pub or_zero : Option ℕ → ℕ
or_zero none = 0
or_zero (some n) = n

abbrev pub count_tool : String → List (String × ℕ) → List (String × ℕ)
count_tool name counts =
    if name == "" then counts else insert name (suc (or_zero (lookup name counts))) counts

-- The entries that count: terminal ones, and legacy requests.
unfoldable pub counted : Entry → Bool
counted e = not (e.outcome == "" && not (e.direction == direction_client_to_server))

abbrev pub in_day : StatsAccumulator → Entry → Bool
in_day s e = not (ltb e.timestamp s.day_start) && ltb e.timestamp s.day_end

abbrev pub bump : Bool → ℕ → ℕ
bump true n = suc n
bump false n = n

abbrev pub add_by : Bool → (String → Option Bool) → Entry → StatsAccumulator → StatsAccumulator
add_by false is_error e s = s
add_by true is_error e s = record s {
  total = suc s.total;
  errors = bump (not (failure_type is_error e == "")) s.errors;
  today = bump (in_day s e) s.today;
  tool_counts = count_tool e.tool_name s.tool_counts;
}

-- `Add`.
unfoldable pub add : (String → Option Bool) → Entry → StatsAccumulator → StatsAccumulator
add is_error e s = add_by (counted e) is_error e s

-- The loop of `BuildStats`.
unfoldable pub add_all : (String → Option Bool) → List Entry → StatsAccumulator → StatsAccumulator
add_all is_error [] s = s
add_all is_error (e ∷ es) s = add_all is_error es (add is_error e s)
