-- ===== src/Http/Balance.antt =====
-- internal/proxy/http.go: operations that are started and operations that are finalized, counted.
--
-- An operation is counted by a test, so that equal counts for all tests mean the same operations,
-- each as often.
use mcp_audit.Base.{
  ℕ, suc, ◌+◌, String, Bool, ◌||◌, ◌≡◌, refl, ap, ◌∙◌, inl, inr, List, [], ◌∷◌, Option, none, some,
  ◌==◌, if◌then◌else◌, Bool-cases, arith, eq_refl, text_cases, lookup, insert, delete, Absent,
  Distinct, Distinct-delete, delete-Absent,
}
use mcp_audit.Audit.{RpcError, direction_server_to_client}
use mcp_audit.Audit.Operation.{Operation}
use mcp_audit.Stdio.{StdioConfig, Tick, RpcMessage, decode_messages}
use mcp_audit.Base.Text.{trim_space}
use mcp_audit.Http.Calls.{
  HttpCall, Calls, HttpState, record_http, finalized_by, Ending, finalize_entries, ends_with,
  finalize_http_pending, remainder_ending, finalize_http_remainder, response_outcome, answered,
  http_responses, decoded_response, is_empty, observe_http_response,
}

module _ (test : Operation → Bool) where
  abbrev one_if : Bool → ℕ
  one_if b = if b then 1 else 0

  abbrev pub tally_option : Option Operation → ℕ
  tally_option none = 0
  tally_option (some o) = one_if (test o)

  abbrev pub tally : List Operation → ℕ
  tally [] = 0
  tally (o ∷ os) = one_if (test o) + tally os

  abbrev pub tally_finalized : List (Operation × String) → ℕ
  tally_finalized [] = 0
  tally_finalized ((o, outcome) ∷ os) = one_if (test o) + tally_finalized os

  abbrev pub tally_calls : Calls → ℕ
  tally_calls [] = 0
  tally_calls ((id, call) ∷ rest) = tally_option call.operation + tally_calls rest

  pub tally_calls-delete :
      (id : String) (call : HttpCall) (table : Calls)
      → Distinct table
      → lookup id table ≡ some call
      → tally_calls table ≡ tally_option call.operation + tally_calls (delete id table)
  tally_calls-delete id call [] d h = cc h
  tally_calls-delete id call ((other, x) ∷ rest) (a, d) h = elim (text_cases other id) [
    | inl (shown, same) ↦
        let found : ◌≡◌ {A = Option HttpCall} (some x) (some call) = rw shown at h in
        let here : x ≡ call = cc found in
        rw (shown, here, delete-Absent id rest (rw (← same) a)) refl
    | inr (shown, _) ↦
        let later = tally_calls-delete id call rest d (rw shown at h) in
        rw shown (omega (arith, later))
  ]

  pub tally_calls-insert :
      (id : String) (call : HttpCall) (table : Calls)
      → lookup id table ≡ none
      → tally_calls (insert id call table) ≡ tally_option call.operation + tally_calls table
  tally_calls-insert id call [] h = refl
  tally_calls-insert id call ((other, x) ∷ rest) h = elim (text_cases other id) [
    | inl (shown, same) ↦ cc (rw shown at h)
    | inr (shown, _) ↦
        let later = tally_calls-insert id call rest (rw shown at h) in
        rw shown (omega (arith, later))
  ]

  module _ {S B : Type 0} (c : StdioConfig S B) where
    -- Every operation that was started is pending or finalized, once.
    abbrev pub Balanced : Calls → HttpState S B → Type 0
    Balanced table s = tally_finalized s.finalized + tally_calls table ≡ tally s.started

    pub finalized_by-tally :
        (o : Option Operation) (outcome direction result : String) (error : Option RpcError)
        (t : Tick) (s : HttpState S B)
        → (tally_finalized (finalized_by c o outcome direction result error t s).finalized
            ≡ tally_option o + tally_finalized s.finalized)
          × ((finalized_by c o outcome direction result error t s).started ≡ s.started)
    finalized_by-tally none outcome direction result error t s = (omega arith, refl)
    finalized_by-tally (some o) outcome direction result error t s = (refl, refl)

    pub record_http-tally :
        (call : HttpCall) (outcome direction result : String) (error : Option RpcError) (t : Tick)
        (s : HttpState S B)
        → (tally_finalized (record_http c call outcome direction result error t s).finalized
            ≡ tally_option call.operation + tally_finalized s.finalized)
          × ((record_http c call outcome direction result error t s).started ≡ s.started)
    unfolding record_http
    record_http-tally call outcome direction result error t s =
        finalized_by-tally call.operation outcome direction result error t s

    delete_first :
        (id : String) (call : HttpCall) (rest : Calls)
        → Absent id rest
        → delete id ((id, call) ∷ rest) ≡ rest
    delete_first id call rest a = rw (eq_refl id) (delete-Absent id rest a)

    -- A loop over the whole table leaves nothing pending and finalizes all of it.
    finalize_entries-Balanced :
        (ending : Ending c) (entries : Calls) (ticks : ℕ → Tick) (table : Calls) (s : HttpState S B)
        → table ≡ entries
        → Distinct entries
        → ((finalize_entries c ending entries ticks (table, s)).0 ≡ [])
          × (Balanced entries s
              → Balanced [] (finalize_entries c ending entries ticks (table, s)).1)
    unfolding finalize_entries
    finalize_entries-Balanced ending [] ticks table s e d = (e, λ b. b)
    finalize_entries-Balanced ending ((id, call) ∷ rest) ticks table s e (a, d) =
        let s' = record_http c call (ending call).0 (ending call).1 "" none (ticks 0) s in
        let (more, same) =
          record_http-tally call (ending call).0 (ending call).1 "" none (ticks 0) s in
        let deleted : delete id table ≡ rest = ap (delete id) e ∙ delete_first id call rest a in
        let (gone, balanced) =
          finalize_entries-Balanced ending rest (λ n. ticks (suc n)) (delete id table) s' deleted
            d in
        (gone, λ b. balanced (omega (arith, more, ap tally same, b)))

    -- The end of a request: nothing is pending, and all that was started is finalized.
    pub record Settled (r r' : Calls × HttpState S B) : Type 0 where
      pub gone : r'.0 ≡ []
      pub balanced : Balanced r.0 r.1 → tally_finalized r'.1.finalized ≡ tally r'.1.started

    settled :
        (ending : Ending c) (ticks : ℕ → Tick) (table : Calls) (s : HttpState S B)
        → Distinct table
        → Settled (table, s) (finalize_entries c ending table ticks (table, s))
    settled ending ticks table s d =
        let (gone, balanced) = finalize_entries-Balanced ending table ticks table s refl d in
        record { gone = gone; balanced = λ b. omega (arith, balanced b) }

    pub pending-Settled :
        (outcome direction : String) (ticks : ℕ → Tick) (r : Calls × HttpState S B)
        → Distinct r.0
        → Settled r (finalize_http_pending c outcome direction ticks r)
    unfolding finalize_http_pending
    pending-Settled outcome direction ticks (table, s) d =
        settled (ends_with c outcome direction) ticks table s d

    pub remainder-Settled :
        (status_code : ℕ) (ticks : ℕ → Tick) (r : Calls × HttpState S B)
        → Distinct r.0
        → Settled r (finalize_http_remainder c status_code ticks r)
    unfolding finalize_http_remainder
    remainder-Settled status_code ticks (table, s) d =
        settled (remainder_ending c status_code) ticks table s d

    -- Steps that keep the keys of the table distinct and the counts balanced.
    pub record Keeps (r r' : Calls × HttpState S B) : Type 0 where
      pub distinct : Distinct r'.0
      pub balanced : Balanced r.0 r.1 → Balanced r'.0 r'.1

    pub Keeps-Settled :
        {r r' r'' : Calls × HttpState S B} → Keeps r r' → Settled r' r'' → Settled r r''
    Keeps-Settled k s = record { gone = s.gone; balanced = λ b. s.balanced (k.balanced b) }

    answered-Keeps :
        (status_code : ℕ) (m : RpcMessage) (o : Option HttpCall) (t : Tick) (table : Calls)
        (s : HttpState S B)
        → lookup m.id table ≡ o
        → Distinct table
        → Keeps (table, s) (answered c status_code m o t (table, s))
    answered-Keeps status_code m none t table s e d = record { distinct = d; balanced = λ b. b }
    answered-Keeps status_code m (some call) t table s e d =
        let (more, same) =
          record_http-tally call (response_outcome c status_code m) direction_server_to_client
            m.result m.error t s in
        let moved = tally_calls-delete m.id call table d e in
        record {
          distinct = Distinct-delete m.id table d;
          balanced = λ b. omega (arith, more, ap tally same, moved, b);
        }

    http_responses-Keeps :
        (status_code : ℕ) (ms : List RpcMessage) (ticks : ℕ → Tick) (table : Calls)
        (s : HttpState S B)
        → Distinct table
        → Keeps (table, s) (http_responses c status_code ms ticks (table, s))
    unfolding http_responses
    http_responses-Keeps status_code [] ticks table s d = record { distinct = d; balanced = λ b. b }
    http_responses-Keeps status_code (m ∷ ms) ticks table s d =
        let first = answered-Keeps status_code m (lookup m.id table) (ticks 0) table s refl d in
        let (table', s') = answered c status_code m (lookup m.id table) (ticks 0) (table, s) in
        let rest =
          http_responses-Keeps status_code ms (λ n. ticks (suc n)) table' s' first.distinct in
        record { distinct = rest.distinct; balanced = λ b. rest.balanced (first.balanced b) }

    decoded-Keeps :
        (status_code : ℕ) (o : Option (List RpcMessage)) (ticks : ℕ → Tick) (table : Calls)
        (s : HttpState S B)
        → Distinct table
        → Keeps (table, s) (decoded_response c status_code o ticks (table, s)).0
    decoded-Keeps status_code none ticks table s d = record { distinct = d; balanced = λ b. b }
    decoded-Keeps status_code (some ms) ticks table s d =
        http_responses-Keeps status_code ms ticks table s d

    pub observe_http_response-Keeps :
        (status_code : ℕ) (raw : String) (ticks : ℕ → Tick) (r : Calls × HttpState S B)
        → Distinct r.0
        → Keeps r (observe_http_response c status_code raw ticks r).0
    unfolding observe_http_response
    observe_http_response-Keeps status_code raw ticks (table, s) d =
        elim (Bool-cases (is_empty c table || trim_space raw == "")) [
          | inl nothing ↦ rw nothing (record { distinct = d; balanced = λ b. b })
          | inr some_left ↦
              rw some_left (decoded-Keeps status_code (decode_messages c raw) ticks table s d)
        ]
