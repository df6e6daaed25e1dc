-- ===== src/Stdio/Guard.antt =====
-- The policy's guard on what the client sends to the upstream server.
use mcp_audit.Base.{
  Bool, true, false, ℕ, suc, String, ◌≡◌, ◌≢◌, refl, inl, inr, List, [], ◌∷◌, ◌++◌, Option, none,
  some, ◌==◌, eq_iff, Bool-cases, All, arith,
}
use mcp_audit.Policy.{Decision}
use mcp_audit.Stdio.{
  decode_messages, StdioConfig, RpcMessage, PendingCall, Tick, evaluate_policy, metadata_name,
  policy_error,
}
use mcp_audit.Stdio.Pipes.{forwarded, client_pipe, write_upstream}
use mcp_audit.Stdio.Observe.{
  observe_client_decoded, observe_client_message, Proxy, client_message, client_messages,
  decided_client, unless_rejected, build_error_response,
}

module _ {S B : Type 0} (c : StdioConfig S B) where
  -- A request or notification that the policy allows; a response needs no permission.
  abbrev pub Permitted : RpcMessage → Type 0
  Permitted m = m.method ≢ "" → (evaluate_policy c m.method (metadata_name c m)).allowed ≡ true

  decided-allowed :
      (m : RpcMessage) (d : Decision) (call : PendingCall) (t : Tick) (p : Proxy S B)
      → (decided_client c m d call t p).1 ≡ none
      → d.allowed ≡ true
  decided-allowed m d call t p h = elim (Bool-cases d.allowed) [
    | inl given ↦ given
    | inr refused ↦ cc (rw refused at h)
  ]

  client_message-Permitted :
      (m : RpcMessage) (t : Tick) (p : Proxy S B) → (client_message c m t p).1 ≡ none → Permitted m
  unfolding client_message
  client_message-Permitted m t p h named =
      let shown : (m.method == "") ≡ false = ground (arith, eq_iff m.method "", named) in
      decided-allowed m _ _ t p (rw shown at h)

  passed_first :
      (next : Proxy S B → Proxy S B × Option String) (r : Proxy S B × Option String)
      → (unless_rejected c next r).1 ≡ none
      → (r.1 ≡ none) × ((next r.0).1 ≡ none)
  passed_first next (p, none) h = (refl, h)
  passed_first next (p, some x) h = cc h

  messages-Permitted :
      (ms : List RpcMessage) (ticks : ℕ → Tick) (p : Proxy S B)
      → (client_messages c ms ticks p).1 ≡ none
      → All Permitted ms
  unfolding client_messages
  messages-Permitted [] ticks p h = tt
  messages-Permitted (m ∷ ms) ticks p h =
      let later : ℕ → Tick = λ n. ticks (suc n) in
      let r = client_message c m (ticks 0) p in
      let (first, rest) = passed_first (client_messages c ms later) r h in
      (client_message-Permitted m (ticks 0) p first, messages-Permitted ms later r.0 rest)

  write_upstream-forwarded :
      (raw : String) (written : Bool) (later : ℕ → Tick) (r : Proxy S B × Option String)
      (line : String)
      → (write_upstream c raw written later r).1 ≡ forwarded line
      → (r.1 ≡ none) × (line ≡ raw)
  write_upstream-forwarded raw written later (p, some reject) line h = cc h
  write_upstream-forwarded raw true later (p, none) line h = (refl, cc h)
  write_upstream-forwarded raw false later (p, none) line h = cc h

  -- What the upstream server gets is a line of the client unchanged, and the policy allows every
  -- request and notification on it, if it decodes. A line that does not decode is passed on.
  pub forwarded-Permitted :
      (raw : String) (written : Bool) (ticks later : ℕ → Tick) (p : Proxy S B) (line : String)
      → (client_pipe c raw written ticks later p).1 ≡ forwarded line
      → (line ≡ raw) × ((ms : List RpcMessage) → decode_messages c raw ≡ some ms → All Permitted ms)
  unfolding client_pipe observe_client_message
  forwarded-Permitted raw written ticks later p line h =
      let (passed, same) =
        write_upstream-forwarded raw written later
          (observe_client_decoded c (decode_messages c raw) ticks p) line h in
      (same, λ ms decoded. messages-Permitted ms ticks p (rw decoded at passed))

  client_message-denied :
      (m : RpcMessage) (t : Tick) (p : Proxy S B)
      → m.method ≢ ""
      → (evaluate_policy c m.method (metadata_name c m)).allowed ≡ false
      → ((client_message c m t p).0.state ≡ p.state)
        × ((client_message c m t p).1
            ≡ some (
                build_error_response c m.id
                  (policy_error c (evaluate_policy c m.method (metadata_name c m)))))
  unfolding client_message
  client_message-denied m t p named refused =
      let shown : (m.method == "") ≡ false = ground (arith, eq_iff m.method "", named) in
      (rw (shown, refused) refl, rw (shown, refused) refl)

  rejected_by_first :
      (next : Proxy S B → Proxy S B × Option String) (r : Proxy S B × Option String) (x : String)
      → r.1 ≡ some x
      → unless_rejected c next r ≡ (r.0, some x)
  rejected_by_first next (p, none) x h = cc h
  rejected_by_first next (p, some y) x h = cc h

  passes_first :
      (next : Proxy S B → Proxy S B × Option String) (r : Proxy S B × Option String)
      → r.1 ≡ none
      → unless_rejected c next r ≡ next r.0
  passes_first next (p, none) h = refl
  passes_first next (p, some y) h = cc h

  -- A request that the policy denies ends its line: the client gets the error response, nothing
  -- behind it is looked at, and what the messages before it left pending stays pending although
  -- the line is not forwarded.
  pub denied-rejects_line :
      (before : List RpcMessage) (m : RpcMessage) (after : List RpcMessage) (ticks : ℕ → Tick)
      (p : Proxy S B)
      → (client_messages c before ticks p).1 ≡ none
      → m.method ≢ ""
      → (evaluate_policy c m.method (metadata_name c m)).allowed ≡ false
      → let (p', answer) = client_messages c (before ++ m ∷ after) ticks p in
        (p'.state ≡ (client_messages c before ticks p).0.state)
        × (answer
            ≡ some (
                build_error_response c m.id
                  (policy_error c (evaluate_policy c m.method (metadata_name c m)))))
  unfolding client_messages
  denied-rejects_line [] m after ticks p passed named refused =
      let (same, answer) = client_message-denied m (ticks 0) p named refused in
      rw
        (rejected_by_first (client_messages c after (λ n. ticks (suc n)))
          (client_message c m (ticks 0) p)
          (build_error_response c m.id
            (policy_error c (evaluate_policy c m.method (metadata_name c m))))
          answer)
        (same, refl)
  denied-rejects_line (x ∷ before) m after ticks p passed named refused =
      let later : ℕ → Tick = λ n. ticks (suc n) in
      let r = client_message c x (ticks 0) p in
      let (first, rest) = passed_first (client_messages c before later) r passed in
      rw
        (
          passes_first (client_messages c (before ++ m ∷ after) later) r first,
          passes_first (client_messages c before later) r first,
        )
        (denied-rejects_line before m after later r.0 rest named refused)
