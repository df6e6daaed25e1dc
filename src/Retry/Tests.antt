-- ===== src/Retry/Tests.antt =====
-- The retry policy on concrete delays.
use mcp_audit.Base.{ℕ, ◌*◌, ◌^◌, ℤ, pos, negsuc, ◌≡◌, refl, true, false, [], ◌∷◌, none, some, leb}
use mcp_audit.Base.Text.{trim_space}
use mcp_audit.Retry.{
  Clockwork, RetryPolicy, max_interval_of, delay, cap_delay, should_retry, can_retry, is_retryable,
  status_code_classifier, parse_retry_after,
}

abbrev scaled_int : ℕ → ℤ → ℕ → ℤ
scaled_int factor (pos n) attempt = pos (n * factor ^ attempt)
scaled_int factor (negsuc n) attempt = negsuc n

-- A clockwork whose numbers are whole, and whose texts are no numbers but one.
abbrev pub whole : Clockwork ℕ
whole = record {
  at_most_one = λ n. leb n 1;
  two = 2;
  scaled = λ factor d attempt. some (scaled_int factor d attempt);
  atoi = λ s. some (pos 7);
  until_date = λ s now. none;
}

abbrev policy : RetryPolicy ℕ
policy = record {
  max_retries = pos 3;
  initial_interval = pos 200;
  max_interval = pos 2000;
  multiplier = 2;
  should_retry = none;
}

third : delay whole policy 2 (pos 0) ≡ pos 800
unfolding delay cap_delay max_interval_of
third = refl

capped : delay whole policy 9 (pos 0) ≡ pos 2000
unfolding delay cap_delay max_interval_of
capped = refl

asked : delay whole policy 0 (pos 5000) ≡ pos 2000
unfolding delay cap_delay max_interval_of
asked = refl

spent : can_retry whole policy 3 503 false ≡ false
unfolding can_retry
spent = refl

unavailable : can_retry whole policy 2 503 false ≡ true
unfolding can_retry is_retryable should_retry
unavailable = refl

not_implemented : can_retry whole policy 0 501 false ≡ false
unfolding can_retry is_retryable should_retry
not_implemented = refl

listed : status_code_classifier (429 ∷ 503 ∷ []) 500 false ≡ false
unfolding status_code_classifier
listed = refl

after : parse_retry_after whole "7" (pos 0) ≡ pos 7000000000
unfolding parse_retry_after trim_space
after = refl
