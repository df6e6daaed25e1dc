-- ===== src/Http/Passing.antt =====
-- internal/proxy/http.go: what passes between the client and the upstream server.
--
-- `newUpstreamRequest` writes X-Forwarded-For behind the copy of the headers; that is not part of
-- the copy.
use Prim.Native.Char.{Char}
use mcp_audit.Base.{
  ℕ, String, Bool, true, false, ◌≡◌, refl, ◌∙◌, ◌↔◌, ap, inl, inr, List, [], ◌∷◌, ◌==◌,
  if◌then◌else◌, Bool-cases, All, lookup, text_cases,
}
use mcp_audit.Base.Text.{to_lower}
use mcp_audit.Base.Header.{Header}
use mcp_audit.Stdio.{StdioConfig}
use mcp_audit.Http.Headers.{
  is_in, hop_by_hop, hop_by_hop_header, strip_request_header, copy_request_header,
}
use mcp_audit.Http.Calls.{Calls, HttpState}
use mcp_audit.Http.Stream.{
  Line, LastLine, trimmed, more_data, event, data_after, last_line, stream_sse,
}

abbrev pub last_bytes : String → List String
last_bytes bytes = if bytes == "" then [] else bytes ∷ []

-- The lines of a stream.
abbrev pub all_bytes : List Line → LastLine → List String
all_bytes [] last = last_bytes last.line.bytes
all_bytes (l ∷ ls) last = l.bytes ∷ all_bytes ls last

abbrev pub AllWritten : List Line → LastLine → Type 0
AllWritten [] last = last.line.written ≡ true
AllWritten (l ∷ ls) last = (l.written ≡ true) × AllWritten ls last

-- The lines before the first one that cannot be written.
abbrev pub before_failure : List Line → LastLine → List String
before_failure [] last = if last.line.written then last_bytes last.line.bytes else []
before_failure (l ∷ ls) last =
    let rest = before_failure ls last in if l.written then l.bytes ∷ rest else []

before_failure-all :
    (ls : List Line) (last : LastLine)
    → AllWritten ls last
    → before_failure ls last ≡ all_bytes ls last
before_failure-all [] last w = rw w refl
before_failure-all (l ∷ ls) last (w, ws) = rw (w, before_failure-all ls last ws) refl

module _ {S B : Type 0} (c : StdioConfig S B) (left : Bool) (status_code : ℕ) where
  last_line-written :
      (l : LastLine) (text : String) (r : Calls × HttpState S B)
      → (last_line c left status_code l text r).output ≡ before_failure [] l
  unfolding last_line
  last_line-written l text r = elim (Bool-cases (l.line.bytes == "")) [
    | inl empty ↦ elim (Bool-cases l.line.written) [
      | inl passed ↦ simp (empty, passed) refl
      | inr failed ↦ simp (empty, failed) refl
    ]
    | inr full ↦ elim (Bool-cases l.line.written) [
      | inl passed ↦ simp (full, passed) refl
      | inr failed ↦ simp (full, failed) refl
    ]
  ]

  stream_sse-written :
      (ls : List Line) (last : LastLine) (text : String) (r : Calls × HttpState S B)
      → (stream_sse c left status_code ls last text r).output ≡ before_failure ls last
  unfolding stream_sse
  stream_sse-written [] last text r = last_line-written last text r
  stream_sse-written (l ∷ ls) last text r =
      let text' = more_data text (trimmed l.bytes) in
      let rest =
        stream_sse-written ls last (data_after c left status_code (trimmed l.bytes) text')
          (event c left status_code l text' r) in
      elim (Bool-cases l.written) [
        | inl passed ↦ simp passed (ap (λ t. l.bytes ∷ t) rest)
        | inr failed ↦ simp failed refl
      ]

  -- The client gets exactly the lines of a streamed response that stand before the first one that
  -- cannot be written, unchanged and in their order, whatever the events in them are; where all can
  -- be written, it gets all of them.
  pub stream_sse-Passed :
      (ls : List Line) (last : LastLine) (text : String) (r : Calls × HttpState S B)
      → ((stream_sse c left status_code ls last text r).output ≡ before_failure ls last)
        × (AllWritten ls last
            → (stream_sse c left status_code ls last text r).output ≡ all_bytes ls last)
  stream_sse-Passed ls last text r =
      let same = stream_sse-written ls last text r in
      (same, λ w. same ∙ before_failure-all ls last w)

module _ (table : Char → Char) (forward_headers : List String) where
  abbrev strip : String → Bool
  strip key = strip_request_header table key forward_headers

  -- A header that may pass: it is not hop-by-hop, and `Authorization` only where it is configured.
  abbrev pub MayPass : String → Type 0
  MayPass key =
      (is_in (to_lower table key) hop_by_hop ≡ false)
      × ((to_lower table key == "authorization") ≡ true
          → is_in (to_lower table key) forward_headers ≡ true)

  strip-MayPass : (key : String) → (strip key ≡ false) ↔ MayPass key
  unfolding strip_request_header hop_by_hop_header
  strip-MayPass key = elim (Bool-cases (is_in (to_lower table key) hop_by_hop)) [
    | inl hop ↦ simp hop (λ h. cc h, λ (end, _). cc end)
    | inr end ↦ elim (Bool-cases (to_lower table key == "authorization")) [
      | inr other ↦ simp (end, other) (λ h. (refl, λ same. cc same), λ _. refl)
      | inl same ↦ elim (Bool-cases (is_in (to_lower table key) forward_headers)) [
        | inl listed ↦ simp (end, same, listed) (λ h. (refl, λ _. refl), λ _. refl)
        | inr missing ↦ simp (end, same, missing) (λ h. cc h, λ (_, listed). cc (listed refl))
      ]
    ]
  ]

  copied-others :
      (headers : Header) (key : String)
      → strip key ≡ false
      → lookup key (copy_request_header table forward_headers headers) ≡ lookup key headers
  unfolding copy_request_header
  copied-others [] key h = refl
  copied-others ((other, vs) ∷ rest) key h =
      let later = copied-others rest key h in
      elim (Bool-cases (strip other)) [
        | inl stripped ↦ elim (text_cases other key) [
          | inl (_, same) ↦ cc (stripped, ap strip same, h)
          | inr (differs, _) ↦ rw (stripped, differs) later
        ]
        | inr passed ↦ elim (Bool-cases (other == key)) [
          | inl same ↦ rw (passed, same) refl
          | inr differs ↦ rw (passed, differs) later
        ]
      ]

  copied-MayPass :
      (headers : Header)
      → All (λ h. MayPass h.0) (copy_request_header table forward_headers headers)
  unfolding copy_request_header
  copied-MayPass [] = tt
  copied-MayPass ((key, vs) ∷ rest) = elim (Bool-cases (strip key)) [
    | inl stripped ↦ rw stripped (copied-MayPass rest)
    | inr passed ↦ rw passed ((strip-MayPass key).0 passed, copied-MayPass rest)
  ]

  -- `copyRequestHeader` copies no hop-by-hop header, it copies `Authorization` only where that is
  -- configured, and it copies every header that is neither of them, and a configured
  -- `Authorization`, with all its values.
  pub copy_request_header-Kept :
      (headers : Header)
      → All (λ h. MayPass h.0) (copy_request_header table forward_headers headers)
        × ((key : String)
            → MayPass key
            → lookup key (copy_request_header table forward_headers headers) ≡ lookup key headers)
  copy_request_header-Kept headers =
      (copied-MayPass headers, λ key may. copied-others headers key ((strip-MayPass key).1 may))
