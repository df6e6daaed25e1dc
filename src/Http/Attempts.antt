-- ===== src/Http/Attempts.antt =====
-- How often and how long the proxy tries the upstream server.
use mcp_audit.Base.{
  inl, inr, ℕ, zero, suc, ◌+◌, ◌-◌, ◌≤◌, ◌<◌, ℤ, pos, negsuc, int_ltb, is_positive, ◌≡◌, ◌≢◌, refl,
  Bool, true, false, not, ◌&&◌, Option, none, some, Result, err, nat_eq, length, All, Bool-cases,
  arith, ltb,
}
use mcp_audit.Retry.{Clockwork, RetryPolicy, can_retry, max_interval_of, delay}
use mcp_audit.Retry.Delays.{delay-bounded, initial-le_max, can_retry-left}
use mcp_audit.Http.Upstream.{
  UpstreamRequest, Reply, Failure, Response, RetryReason, Sent, should_retry_upstream, wait_of,
  next_backoff, ended, retried, waited, decided, upstream_loop, do_upstream_request, status_of,
  has_failed, upstream_retry_reason, response_retry_after,
}

module _ {F U : Type 0} (c : Clockwork F) (p : RetryPolicy F)
    (send : UpstreamRequest → U → U × Reply) where
  -- A call that ends with at most `n` retries, each after a delay that is not above the bound.
  pub record Bounded (n : ℕ) (s : Sent U) : Type 0 where
    pub returns : s.result ≢ none
    pub few : length s.reasons ≤ n
    pub one_delay_each : length s.delays ≡ length s.reasons
    pub short : All (λ d. int_ltb (max_interval_of c p) d ≡ false) s.delays

  ended-Bounded : (n : ℕ) (u : U) (r : Result Failure Response) → Bounded n (ended c p send u r)
  ended-Bounded n u r = record {
    returns = λ h. cc h;
    few = omega arith;
    one_delay_each = refl;
    short = tt;
  }

  waited-Bounded :
      (n : ℕ) (again : U → Sent U) (gone : Option Failure) (u : U)
      → ((v : U) → Bounded n (again v))
      → Bounded n (waited c p send again gone u)
  waited-Bounded n again none u h = h u
  waited-Bounded n again (some x) u h = ended-Bounded n u (err x)

  retried-Bounded :
      (n : ℕ) (reason : RetryReason) (d : ℤ) (s : Sent U)
      → int_ltb (max_interval_of c p) d ≡ false
      → Bounded n s
      → Bounded (suc n) (retried c p send reason d s)
  retried-Bounded n reason d s small b = record {
    returns = b.returns;
    few = omega (arith, b.few);
    one_delay_each = omega (arith, b.one_delay_each);
    short = (small, b.short);
  }

  should_retry-can_retry :
      (attempt : ℕ) (safe : Bool) (reply : Reply)
      → should_retry_upstream c p send attempt safe reply ≡ true
      → (safe ≡ true)
        × (can_retry c p attempt (status_of reply.result) (has_failed reply.result) ≡ true)
  unfolding should_retry_upstream
  should_retry-can_retry attempt false reply h = cc h
  should_retry-can_retry attempt true reply h =
      elim (Bool-cases (has_failed reply.result && not (nat_eq reply.bytes_read 0))) [
        | inl begun ↦ cc (rw begun at h)
        | inr fresh ↦ (refl, rw fresh at h)
      ]

  below_pos : (m : ℤ) (attempt n : ℕ) → m ≡ pos n → int_ltb (pos attempt) m ≡ true → attempt < n
  below_pos (pos k) attempt n e h =
      let same : k ≡ n = cc e in let below : ltb attempt k ≡ true = h in ground (arith, below, same)
  below_pos (negsuc k) attempt n e h = cc h

  wait_of-bounded :
      (backoff_attempt : ℕ) (reply : Reply)
      → is_positive p.initial_interval ≡ true
      → int_ltb (max_interval_of c p) (wait_of c p send backoff_attempt reply) ≡ false
  wait_of-bounded backoff_attempt reply h =
      let after = response_retry_after c reply.now reply.result in
      elim (Bool-cases (is_positive (delay c p backoff_attempt after))) [
        | inl given ↦ rw given (delay-bounded c p backoff_attempt after h)
        | inr missing ↦ rw missing (initial-le_max c p h)
      ]

  more_left :
      (attempt n : ℕ) (safe : Bool) (reply : Reply)
      → p.max_retries ≡ pos n
      → should_retry_upstream c p send attempt safe reply ≡ true
      → attempt < n
  more_left attempt n safe reply m more = below_pos p.max_retries attempt n m (
      can_retry-left c p attempt (status_of reply.result) (has_failed reply.result)
        (should_retry-can_retry attempt safe reply more).1)

  -- One attempt, with `rest` retries left.
  decided-Bounded :
      (again : ℕ → U → Sent U) (attempt backoff_attempt n rest : ℕ) (safe : Bool) (r : U × Reply)
      → p.max_retries ≡ pos n
      → is_positive p.initial_interval ≡ true
      → attempt + rest ≡ n
      → ((k r : ℕ) (v : U) → suc attempt + r ≡ n → Bounded r (again k v))
      → Bounded rest (decided c p send again attempt backoff_attempt safe r)
  decided-Bounded again attempt backoff_attempt n rest safe (u, reply) m h e later =
      elim (Bool-cases (should_retry_upstream c p send attempt safe reply)) [
        | inr last ↦ rw last (ended-Bounded rest u reply.result)
        | inl more ↦
            let left = more_left attempt n safe reply m more in
            let one_more : rest ≡ suc (rest - 1) = omega (arith, left, e) in
            let next = next_backoff c p send backoff_attempt reply in
            rw (more, one_more)
              (retried-Bounded (rest - 1) (upstream_retry_reason reply.result)
                (wait_of c p send backoff_attempt reply) (waited c p send (again next) reply.gone u)
                (wait_of-bounded backoff_attempt reply h)
                (waited-Bounded (rest - 1) (again next) reply.gone u
                  (λ v. later next (rest - 1) v (omega (arith, left, e)))))
      ]

  upstream_loop-Bounded :
      (fuel : ℕ) (request : UpstreamRequest) (safe : Bool) (attempt backoff_attempt n rest : ℕ)
      (u : U)
      → p.max_retries ≡ pos n
      → is_positive p.initial_interval ≡ true
      → attempt + rest ≡ n
      → fuel ≡ suc rest
      → Bounded rest (upstream_loop c p send fuel request safe attempt backoff_attempt u)
  unfolding upstream_loop
  upstream_loop-Bounded zero request safe attempt backoff_attempt n rest u m h e f =
      absurd (omega (arith, f))
  upstream_loop-Bounded (suc fuel) request safe attempt backoff_attempt n rest u m h e f =
      decided-Bounded (upstream_loop c p send fuel request safe (suc attempt)) attempt
        backoff_attempt n rest safe (send request u) m h e
        (λ k r v e'.
          upstream_loop-Bounded fuel request safe (suc attempt) k n r v m h e'
            (omega (arith, e, e', f)))

  -- The call to the upstream server returns: after at most `max_retries` retries it has a response
  -- or a failure, and it waits before each retry for at most the larger of the two intervals.
  pub do_upstream_request-Bounded :
      (n : ℕ) (request : UpstreamRequest) (safe : Bool) (u : U)
      → p.max_retries ≡ pos n
      → is_positive p.initial_interval ≡ true
      → Bounded n (do_upstream_request c p send n request safe u)
  unfolding do_upstream_request
  do_upstream_request-Bounded n request safe u m h =
      upstream_loop-Bounded (suc n) request safe 0 0 n n u m h (omega arith) refl

  -- A request that is not safe to repeat is sent exactly once: the upstream server's state and the
  -- result are those of one send.
  pub unsafe-sent_once :
      (n : ℕ) (request : UpstreamRequest) (u : U)
      → do_upstream_request c p send n request false u
        ≡ ended c p send (send request u).0 (send request u).1.result
  unfolding do_upstream_request upstream_loop should_retry_upstream
  unsafe-sent_once n request u = refl

  -- A request whose body was begun is not repeated after a failure.
  pub begun-not_retried :
      (attempt : ℕ) (safe : Bool) (reply : Reply)
      → has_failed reply.result ≡ true
      → reply.bytes_read ≢ 0
      → should_retry_upstream c p send attempt safe reply ≡ false
  unfolding should_retry_upstream
  begun-not_retried attempt safe reply failed begun =
      let some_read : nat_eq reply.bytes_read 0 ≡ false = ground (arith, begun) in
      elim (Bool-cases safe) [ inl on ↦ rw (on, failed, some_read) refl | inr off ↦ rw off refl ]
