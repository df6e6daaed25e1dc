-- ===== src/Retry.antt =====
-- internal/retry/retry.go: which replies are tried again, and after what delay.
--
-- A duration is its nanoseconds. Floating point numbers and the parsers of other packages are the
-- record Clockwork: a multiplier, the test `<= 1`, and the delay of an attempt, which is none where
-- it is above the largest int64 and else the converted number.
pub mod Delays
pub mod Tests
use mcp_audit.Base.{
  ℕ, zero, suc, ◌*◌, ◌-◌, ◌^◌, ℤ, pos, negsuc, int_ltb, is_positive, wrap_int64, String, Bool, true,
  false, not, ◌&&◌, ◌||◌, List, Option, none, some, ◌==◌, if◌then◌else◌, nat_eq, leb, any,
}
use mcp_audit.Base.Text.{trim_space}

pub record Clockwork (F : Type 0) : Type 0 where
  pub at_most_one : F → Bool
  pub two : F
  pub scaled : F → ℤ → ℕ → Option ℤ
  pub atoi : String → Option ℤ
  -- The time of an HTTP date, less the given time.
  pub until_date : String → ℤ → Option ℤ

-- `Classifier`: a status, and whether the request failed.
abbrev pub Classifier : Type 0
Classifier = ℕ → Bool → Bool

pub record RetryPolicy (F : Type 0) : Type 0 where
  pub max_retries : ℤ
  pub initial_interval : ℤ
  pub max_interval : ℤ
  pub multiplier : F
  pub should_retry : Option Classifier

abbrev pub max_int64 : ℤ
max_int64 = pos (2 ^ 63 - 1)

-- `ShouldRetry`.
unfoldable pub should_retry : Classifier
should_retry status failed =
    if failed
    then true
    else if nat_eq status 408 || nat_eq status 429
    then true
    else leb 500 status && not (nat_eq status 501)

-- `StatusCodeClassifier`.
unfoldable pub status_code_classifier : List ℕ → Classifier
status_code_classifier statuses status failed =
    if failed then true else any (λ s. nat_eq s status) statuses

abbrev pub classifier_or_default : Option Classifier → Classifier
classifier_or_default none = should_retry
classifier_or_default (some f) = f

-- `capDelay`.
unfoldable pub cap_delay : ℤ → ℤ → ℤ
cap_delay delay max_delay =
    if is_positive max_delay && int_ltb max_delay delay then max_delay else delay

-- Nanoseconds of a number of seconds that is not negative, as an int64.
abbrev pub seconds : ℤ → ℤ
seconds (pos n) = wrap_int64 (n * 1000000000)
seconds (negsuc n) = pos 0

abbrev pub is_negative : ℤ → Bool
is_negative (pos n) = false
is_negative (negsuc n) = true

abbrev pub positive_or_zero : ℤ → ℤ
positive_or_zero d = if is_positive d then d else pos 0

module _ {F : Type 0} (c : Clockwork F) where
  -- `IsRetryable` and `CanRetry`.
  unfoldable pub is_retryable : RetryPolicy F → ℕ → Bool → Bool
  is_retryable p status failed = classifier_or_default p.should_retry status failed

  unfoldable pub can_retry : RetryPolicy F → ℕ → ℕ → Bool → Bool
  can_retry p attempt status failed =
      if not (is_positive p.max_retries) || not (int_ltb (pos attempt) p.max_retries)
      then false
      else is_retryable p status failed

  abbrev pub multiplier_of : RetryPolicy F → F
  multiplier_of p = if c.at_most_one p.multiplier then c.two else p.multiplier

  -- The largest delay: the initial interval where that is larger.
  unfoldable pub max_interval_of : RetryPolicy F → ℤ
  max_interval_of p =
      if is_positive p.initial_interval
        && (not (is_positive p.max_interval) || int_ltb p.max_interval p.initial_interval)
      then p.initial_interval
      else p.max_interval

  abbrev pub or_max_int64 : Option ℤ → ℤ
  or_max_int64 none = max_int64
  or_max_int64 (some d) = d

  -- `Delay` of an attempt that is not negative.
  unfoldable pub delay : RetryPolicy F → ℕ → ℤ → ℤ
  delay p attempt retry_after =
      if is_positive retry_after
      then cap_delay retry_after (max_interval_of p)
      else if not (is_positive p.initial_interval)
      then pos 0
      else cap_delay (or_max_int64 (c.scaled (multiplier_of p) p.initial_interval attempt))
          (max_interval_of p)

  abbrev pub until_or_zero : Option ℤ → ℤ
  until_or_zero none = pos 0
  until_or_zero (some d) = positive_or_zero d

  abbrev pub parse_by : Option ℤ → Option ℤ → ℤ
  parse_by none date = until_or_zero date
  parse_by (some n) date = if is_negative n then until_or_zero date else seconds n

  -- `parseRetryAfter`.
  unfoldable pub parse_retry_after : String → ℤ → ℤ
  parse_retry_after value now =
      if trim_space value == ""
      then pos 0
      else parse_by (c.atoi (trim_space value)) (c.until_date (trim_space value) now)
