-- ===== src/Limit.antt =====
-- internal/middleware/ratelimit.go: token buckets, one for each client and tool.
--
-- The bucket is that of golang.org/x/time/rate, a parameter: what `NewLimiter` makes for a number
-- of requests per minute, and `Allow` at an instant.
pub mod Isolation
pub mod Tests
use Prim.Native.String
use mcp_audit.Base.{
  ℕ, zero, suc, ℤ, pos, negsuc, String, Bool, true, false, not, List, [], ◌∷◌, Option, none, some,
  ◌==◌, if◌then◌else◌, lookup, insert,
}

pub record Buckets (B : Type 0) : Type 0 where
  pub new_limiter : ℕ → B
  pub allow_at : ℕ → B → B × Bool

pub record RateLimiter (B : Type 0) : Type 0 where
  pub enabled : Bool
  pub requests_per_minute : ℕ
  pub limiters : List (String × B)

-- A setting that is not positive stands for 60.
abbrev pub rate_or_default : ℤ → ℕ
rate_or_default (pos zero) = 60
rate_or_default (pos (suc n)) = suc n
rate_or_default (negsuc n) = 60

-- `NewRateLimiter`.
unfoldable pub new_rate_limiter : {B : Type 0} → Bool → ℤ → RateLimiter B
new_rate_limiter enabled requests_per_minute = record {
  enabled = enabled;
  requests_per_minute = rate_or_default requests_per_minute;
  limiters = [];
}

abbrev pub tool_or_unknown : String → String
tool_or_unknown tool_name = if tool_name == "" then "unknown" else tool_name

-- `fmt.Sprintf("%s:%s", clientID, toolName)`.
unfoldable pub limiter_key : String → String → String
limiter_key client_id tool_name =
    String.◌++◌ client_id (String.◌++◌ ":" (tool_or_unknown tool_name))

module _ {B : Type 0} (buckets : Buckets B) where
  abbrev pub bucket_or_new : ℕ → Option B → B
  bucket_or_new rate none = buckets.new_limiter rate
  bucket_or_new rate (some b) = b

  abbrev pub bucket_of : RateLimiter B → String → B
  bucket_of l key = bucket_or_new l.requests_per_minute (lookup key l.limiters)

  abbrev pub stored : RateLimiter B → String → B × Bool → Option (RateLimiter B) × Bool
  stored l key (b, answer) = (some (record l { limiters = insert key b l.limiters }), answer)

  -- `Allow` at an instant; a nil limiter is `none`.
  unfoldable pub allow :
      Option (RateLimiter B) → String → String → ℕ → Option (RateLimiter B) × Bool
  allow none client_id tool_name now = (none, true)
  allow (some l) client_id tool_name now =
      if not l.enabled
      then (some l, true)
      else stored l (limiter_key client_id tool_name)
          (buckets.allow_at now (bucket_of l (limiter_key client_id tool_name)))
