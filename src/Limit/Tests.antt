-- ===== src/Limit/Tests.antt =====
-- The limiter over a bucket that counts down, with one client and two tools.
use mcp_audit.Base.{ℕ, zero, suc, String, ◌≡◌, ◌≢◌, refl, true, false, List, [], ◌∷◌, some, eq_iff}
use mcp_audit.Limit.{Buckets, RateLimiter, bucket_of, allow, limiter_key}
use mcp_audit.Limit.Isolation.{
  Ask, answers, bucket_answers, times, answers-own_bucket, allow-shared_bucket,
}

-- A bucket that never refills.
abbrev buckets : Buckets ℕ
buckets = record {
  new_limiter = λ n. n;
  allow_at = λ now b. elim b [ zero ↦ (0, false) | suc c ↦ (c, true) ];
}

abbrev limiter : RateLimiter ℕ
limiter = record { enabled = true; requests_per_minute = 1; limiters = [] }

abbrev ask : String → ℕ → Ask
ask tool now = record { client_id = "a"; tool_name = tool; now = now }

abbrev asks : List Ask
asks = ask "ls" 1 ∷ ask "cat" 2 ∷ ask "ls" 3 ∷ []

answers_run : answers buckets "a:ls" asks (some limiter) ≡ true ∷ false ∷ []
unfolding answers allow limiter_key
answers_run = refl

answers-own_bucket_example :
    answers buckets "a:ls" asks (some limiter)
    ≡ bucket_answers buckets (times "a:ls" asks) (bucket_of buckets limiter "a:ls")
answers-own_bucket_example = answers-own_bucket buckets "a:ls" asks limiter refl

name_ne : ◌≢◌ {A = String} "c" ""
name_ne e = cc ((eq_iff "c" "").1 e)

allow-shared_bucket_example :
    allow buckets (some limiter) "a:b" "c" 1 ≡ allow buckets (some limiter) "a" "b:c" 1
allow-shared_bucket_example = allow-shared_bucket buckets (some limiter) "a" "b" "c" 1 name_ne
