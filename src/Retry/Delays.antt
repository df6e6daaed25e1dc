-- ===== src/Retry/Delays.antt =====
-- The bound of every delay.
use mcp_audit.Base.{
  inl, inr, ℕ, ℤ, pos, int_ltb, int_ltb-irreflexive, is_positive, ◌≡◌, Bool, true, false,
  Bool-cases,
}
use mcp_audit.Retry.{
  Clockwork, RetryPolicy, can_retry, cap_delay, max_interval_of, multiplier_of, or_max_int64, delay,
}

cap_delay-le : (d m : ℤ) → is_positive m ≡ true → int_ltb m (cap_delay d m) ≡ false
unfolding cap_delay
cap_delay-le d m h = elim (Bool-cases (int_ltb m d)) [
  | inl above ↦ rw (h, above) (int_ltb-irreflexive m)
  | inr below ↦ rw (h, below) below
]

module _ {F : Type 0} (c : Clockwork F) where
  -- The bound is positive where the initial interval is.
  pub max_interval_of-positive :
      (p : RetryPolicy F)
      → is_positive p.initial_interval ≡ true
      → is_positive (max_interval_of c p) ≡ true
  unfolding max_interval_of
  max_interval_of-positive p h = elim (Bool-cases (is_positive p.max_interval)) [
    | inr unset ↦ rw (h, unset) h
    | inl set ↦ elim (Bool-cases (int_ltb p.max_interval p.initial_interval)) [
      | inl small ↦ rw (h, set, small) h
      | inr large ↦ rw (h, set, large) set
    ]
  ]

  -- Under a positive initial interval no delay is above the larger of the two intervals, whatever
  -- the attempt, the multiplier and the server's Retry-After say.
  pub delay-bounded :
      (p : RetryPolicy F) (attempt : ℕ) (retry_after : ℤ)
      → is_positive p.initial_interval ≡ true
      → int_ltb (max_interval_of c p) (delay c p attempt retry_after) ≡ false
  unfolding delay
  delay-bounded p attempt retry_after h = elim (Bool-cases (is_positive retry_after)) [
    | inl given ↦
        rw given (cap_delay-le retry_after (max_interval_of c p) (max_interval_of-positive p h))
    | inr missing ↦
        rw (missing, h)
          (cap_delay-le (or_max_int64 c (c.scaled (multiplier_of c p) p.initial_interval attempt))
            (max_interval_of c p) (max_interval_of-positive p h))
  ]

  pub initial-le_max :
      (p : RetryPolicy F)
      → is_positive p.initial_interval ≡ true
      → int_ltb (max_interval_of c p) p.initial_interval ≡ false
  unfolding max_interval_of
  initial-le_max p h = elim (Bool-cases (is_positive p.max_interval)) [
    | inr unset ↦ rw (h, unset) (int_ltb-irreflexive p.initial_interval)
    | inl set ↦ elim (Bool-cases (int_ltb p.max_interval p.initial_interval)) [
      | inl small ↦ rw (h, set, small) (int_ltb-irreflexive p.initial_interval)
      | inr large ↦ rw (h, set, large) large
    ]
  ]

  -- A retry is allowed only while retries are left.
  pub can_retry-left :
      (p : RetryPolicy F) (attempt : ℕ) (status : ℕ) (failed : Bool)
      → can_retry c p attempt status failed ≡ true
      → int_ltb (pos attempt) p.max_retries ≡ true
  unfolding can_retry
  can_retry-left p attempt status failed h = elim (Bool-cases (is_positive p.max_retries)) [
    | inr unset ↦ cc (rw unset at h)
    | inl set ↦ elim (Bool-cases (int_ltb (pos attempt) p.max_retries)) [
      | inl left ↦ left
      | inr spent ↦ cc (rw (set, spent) at h)
    ]
  ]
