-- ===== src/Mcp/Agreement.antt =====
-- internal/mcp: a request that passes the inspection is described by its headers correctly.
use mathlib.Core.Path.{subst}
use mcp_audit.Base.{
  ◌⊎◌, ap, String, true, false, not, ◌&&◌, ◌||◌, ◌≡◌, refl, sym, ◌∙◌, inl, inr, List, [], ◌∷◌,
  Result, ok, err, ◌==◌, eq_iff, Bool-cases, arith,
}
use mcp_audit.Base.Text.{trim_space}
use mcp_audit.Base.Header.{Header, values}
use mcp_audit.Mcp.{Message, name_from_message, request_id}
use mcp_audit.Mcp.Requests.{
  InspectError, RequestHeaders, RequestMetadata, Decoder, single_value, single_header, headers_of,
  inspect_headers, header_method, header_name, header_protocol_version, supported, revision_by,
  revision_from_message, protocol_revision_of, metadata_of, with_revision, inspect_message,
  inspect_messages, inspect_body, no_message, bare_metadata, protocol_20260728,
  protocol_legacy_20251125, inspect_request, decode_request,
}

-- A header that is not empty is the other text.
abbrev Names : String → String → Type 0
Names x y = (x == "") ≡ false → x ≡ y

single_value-shown : (v x : String) → single_value (v ∷ []) ≡ ok x → (v ≡ x) × ((x == "") ≡ false)
single_value-shown v x h = elim (Bool-cases (trim_space v == "")) [
  | inl blank ↦ cc (rw blank at h)
  | inr shown ↦ elim (Bool-cases (trim_space v == v)) [
    | inr padded ↦ cc (rw (shown, padded) at h)
    | inl same ↦
        let given : ◌≡◌ {A = Result InspectError String} (ok (trim_space v)) (ok x) =
          rw (shown, same) at h in
        let trimmed : trim_space v ≡ x = cc given in
        (sym ((eq_iff (trim_space v) v).0 same) ∙ trimmed, rw (← trimmed) shown)
  ]
]

record Read (headers : Header) (h : RequestHeaders) : Type 0 where
  method : single_header headers header_method ≡ ok h.method
  name : single_header headers header_name ≡ ok h.name
  revision : single_header headers header_protocol_version ≡ ok h.revision

headers_of-parts :
    (m n r : Result InspectError String) (h : RequestHeaders)
    → headers_of m n r ≡ ok h
    → (m ≡ ok h.method) × (n ≡ ok h.name) × (r ≡ ok h.revision)
headers_of-parts (err x) n r h e = cc e
headers_of-parts (ok m) (err x) r h e = cc e
headers_of-parts (ok m) (ok n) (err x) h e = cc e
headers_of-parts (ok m) (ok n) (ok r) h e =
    let same : record { method = m; name = n; revision = r } ≡ h = cc e in
    rw (← same) (refl, refl, refl)

inspect_headers-Read :
    (headers : Header) (h : RequestHeaders) → inspect_headers headers ≡ ok h → Read headers h
unfolding inspect_headers
inspect_headers-Read headers h e =
    let (m, n, r) =
      headers_of-parts (single_header headers header_method) (single_header headers header_name)
        (single_header headers header_protocol_version) h e in
    record { method = m; name = n; revision = r }

not_shown : (x y : String) → (x == "") ≡ true → Names x y
not_shown x y empty shown = absurd (ground (arith, empty, shown))

Names-unless : (x y : String) → (not (x == "") && not (x == y)) ≡ false → Names x y
Names-unless x y h shown = ground (arith, eq_iff x y, h, shown)

revision_by-supported :
    (d : Decoder) (hr br method r : String)
    → revision_by d hr br method ≡ ok r
    → (supported r ≡ true) × Names hr r × Names br r
unfolding supported
revision_by-supported d hr br method r h = elim (Bool-cases (hr == "")) [
  | inr shown ↦ elim (Bool-cases (supported hr)) [
    | inr other ↦ cc (rw (shown, other) at h)
    | inl known ↦ elim (Bool-cases (not (br == "") && not (br == hr))) [
      | inl differs ↦ cc (rw (shown, known, differs) at h)
      | inr agrees ↦
          let given : ◌≡◌ {A = Result InspectError String} (ok hr) (ok r) =
            rw (shown, known, agrees) at h in
          let same : hr ≡ r = cc given in
          (rw (← same) known, (λ _. same), rw (← same) (Names-unless br hr agrees))
    ]
  ]
  | inl empty ↦ elim (Bool-cases (br == "")) [
    | inr shown ↦ elim (Bool-cases (supported br)) [
      | inr other ↦ cc (rw (empty, shown, other) at h)
      | inl known ↦
          let given : ◌≡◌ {A = Result InspectError String} (ok br) (ok r) =
            rw (empty, shown, known) at h in
          let same : br ≡ r = cc given in (rw (← same) known, not_shown hr r empty, λ _. same)
    ]
    | inl neither ↦ elim (Bool-cases (method == "server/discover")) [
      | inl discover ↦
          let given : ◌≡◌ {A = Result InspectError String} (ok protocol_20260728) (ok r) =
            rw (empty, neither, discover) at h in
          let same : protocol_20260728 ≡ r = cc given in
          (rw (← same) refl, not_shown hr r empty, not_shown br r neither)
      | inr other ↦
          let given : ◌≡◌ {A = Result InspectError String} (ok protocol_legacy_20251125) (ok r) =
            rw (empty, neither, other) at h in
          let same : protocol_legacy_20251125 ≡ r = cc given in
          (rw (← same) refl, not_shown hr r empty, not_shown br r neither)
    ]
  ]
]

module _ (d : Decoder) where
  -- What the inspected headers say of the metadata.
  record Described (h : RequestHeaders) (meta : RequestMetadata) : Type 0 where
    method : Names h.method meta.method
    name : Names h.name meta.name
    revision : Names h.revision meta.protocol_revision
    known : supported meta.protocol_revision ≡ true

  with_revision-Described :
      (h : RequestHeaders) (m : Message) (r : Result InspectError String) (meta : RequestMetadata)
      → Names h.method m.method
      → Names h.name (name_from_message d.json m)
      → revision_by d h.revision (revision_from_message d m) m.method ≡ r
      → with_revision d m r ≡ ok meta
      → Described h meta
  with_revision-Described h m (err x) meta a b e g = cc g
  with_revision-Described h m (ok revision) meta a b e g =
      let (known, agrees, _) =
        revision_by-supported d h.revision (revision_from_message d m) m.method revision e in
      let same : metadata_of d m revision ≡ meta = cc g in
      subst (Described h) same (record { method = a; name = b; revision = agrees; known = known })

  inspect_message-Described :
      (h : RequestHeaders) (m : Message) (meta : RequestMetadata)
      → inspect_message d h m ≡ ok meta
      → Described h meta
  unfolding protocol_revision_of
  inspect_message-Described h m meta g =
      elim (Bool-cases (not (h.method == "") && not (h.method == m.method))) [
        | inl differs ↦ cc (rw differs at g)
        | inr agrees ↦
            elim (Bool-cases (not (h.name == "") && not (h.name == name_from_message d.json m))) [
              | inl other ↦ cc (rw (agrees, other) at g)
              | inr same ↦
                  with_revision-Described h m (protocol_revision_of d h.revision m) meta
                    (Names-unless h.method m.method agrees)
                    (Names-unless h.name (name_from_message d.json m) same) refl
                    (rw (agrees, same) at g)
            ]
      ]

  inspect_messages-Described :
      (h : RequestHeaders) (r : Result InspectError (List Message)) (meta : RequestMetadata)
      → inspect_messages d h r ≡ ok meta
      → Described h meta
  inspect_messages-Described h (err x) meta g = cc g
  inspect_messages-Described h (ok []) meta g = cc g
  inspect_messages-Described h (ok (m ∷ [])) meta g = inspect_message-Described h m meta g
  inspect_messages-Described h (ok (m ∷ n ∷ ms)) meta g = cc g

  bare-Described :
      (h : RequestHeaders) (r : Result InspectError String) (meta : RequestMetadata)
      → (h.method == "") ≡ true
      → (h.name == "") ≡ true
      → revision_by d h.revision (revision_from_message d no_message) no_message.method ≡ r
      → bare_metadata d r ≡ ok meta
      → Described h meta
  bare-Described h (err x) meta a b e g = cc g
  bare-Described h (ok revision) meta a b e g =
      let (known, agrees, _) =
        revision_by-supported d h.revision (revision_from_message d no_message) no_message.method
          revision e in
      let same : record {
        protocol_revision = revision;
        method = "";
        name = "";
        request_id = "";
        kind = "";
      }
          ≡ meta =
        cc g in
      subst (Described h) same (record {
        method = not_shown h.method "" a;
        name = not_shown h.name "" b;
        revision = agrees;
        known = known;
      })

  inspect_body-Described :
      (body : String) (h : RequestHeaders) (meta : RequestMetadata)
      → inspect_body d body (ok h) ≡ ok meta
      → Described h meta
  unfolding protocol_revision_of
  inspect_body-Described body h meta g = elim (Bool-cases (trim_space body == "")) [
    | inr shown ↦ inspect_messages-Described h (decode_request d body) meta (rw shown at g)
    | inl empty ↦ elim (Bool-cases (h.method == "")) [
      | inr named ↦ cc (rw (empty, named) at g)
      | inl a ↦ elim (Bool-cases (h.name == "")) [
        | inr named ↦ cc (rw (empty, a, named) at g)
        | inl b ↦
            bare-Described h (protocol_revision_of d h.revision no_message) meta a b refl
              (rw (empty, a, b) at g)
      ]
    ]
  ]

  -- Where the metadata come from: an empty body has no method and no name; else the body is one
  -- message, whose method, name and id they have, and whose revision, where it names one.
  pub data Of (body : String) (meta : RequestMetadata) : Type 0 where
    empty_body : trim_space body ≡ "" → meta.method ≡ "" → meta.name ≡ "" → Of body meta
    one_message :
        (m : Message)
        → decode_request d body ≡ ok (m ∷ [])
        → meta.method ≡ m.method
        → meta.name ≡ name_from_message d.json m
        → meta.request_id ≡ request_id d.json m.id
        → Names (revision_from_message d m) meta.protocol_revision
        → Of body meta

  with_revision-Of :
      (body : String) (h : RequestHeaders) (m : Message) (r : Result InspectError String)
      (meta : RequestMetadata)
      → decode_request d body ≡ ok (m ∷ [])
      → revision_by d h.revision (revision_from_message d m) m.method ≡ r
      → with_revision d m r ≡ ok meta
      → Of body meta
  with_revision-Of body h m (err x) meta one e g = cc g
  with_revision-Of body h m (ok revision) meta one e g =
      let (known, _, names) =
        revision_by-supported d h.revision (revision_from_message d m) m.method revision e in
      let same : metadata_of d m revision ≡ meta = cc g in
      subst (Of body) same (one_message m one refl refl refl names)

  inspect_message-Of :
      (body : String) (h : RequestHeaders) (m : Message) (meta : RequestMetadata)
      → decode_request d body ≡ ok (m ∷ [])
      → inspect_message d h m ≡ ok meta
      → Of body meta
  unfolding protocol_revision_of
  inspect_message-Of body h m meta one g =
      elim (Bool-cases (not (h.method == "") && not (h.method == m.method))) [
        | inl differs ↦ cc (rw differs at g)
        | inr agrees ↦
            elim (Bool-cases (not (h.name == "") && not (h.name == name_from_message d.json m))) [
              | inl other ↦ cc (rw (agrees, other) at g)
              | inr same ↦
                  with_revision-Of body h m (protocol_revision_of d h.revision m) meta one refl
                    (rw (agrees, same) at g)
            ]
      ]

  inspect_messages-Of :
      (body : String) (h : RequestHeaders) (r : Result InspectError (List Message))
      (meta : RequestMetadata)
      → decode_request d body ≡ r
      → inspect_messages d h r ≡ ok meta
      → Of body meta
  inspect_messages-Of body h (err x) meta e g = cc g
  inspect_messages-Of body h (ok []) meta e g = cc g
  inspect_messages-Of body h (ok (m ∷ [])) meta e g = inspect_message-Of body h m meta e g
  inspect_messages-Of body h (ok (m ∷ n ∷ ms)) meta e g = cc g

  bare-Of :
      (body : String) (r : Result InspectError String) (meta : RequestMetadata)
      → trim_space body ≡ ""
      → bare_metadata d r ≡ ok meta
      → Of body meta
  bare-Of body (err x) meta empty g = cc g
  bare-Of body (ok revision) meta empty g =
      let same : record {
        protocol_revision = revision;
        method = "";
        name = "";
        request_id = "";
        kind = "";
      }
          ≡ meta =
        cc g in
      subst (Of body) same (empty_body empty refl refl)

  inspect_body-Of :
      (body : String) (h : RequestHeaders) (meta : RequestMetadata)
      → inspect_body d body (ok h) ≡ ok meta
      → Of body meta
  inspect_body-Of body h meta g = elim (Bool-cases (trim_space body == "")) [
    | inr shown ↦ inspect_messages-Of body h (decode_request d body) meta refl (rw shown at g)
    | inl empty ↦ elim (Bool-cases (not (h.method == "") || not (h.name == ""))) [
      | inl named ↦ cc (rw (empty, named) at g)
      | inr bare ↦
          bare-Of body (protocol_revision_of d h.revision no_message) meta
            ((eq_iff (trim_space body) "").0 empty) (rw (empty, bare) at g)
    ]
  ]

  -- A header is missing, or stands once with that text.
  abbrev pub Says : String → Header → String → Type 0
  Says key headers text = (values key headers ≡ []) ⊎ (values key headers ≡ text ∷ [])

  Says-of :
      (key x text : String) (headers : Header) (vs : List String)
      → values key headers ≡ vs
      → single_value vs ≡ ok x
      → Names x text
      → Says key headers text
  Says-of key x text headers [] e g n = inl e
  Says-of key x text headers (v ∷ []) e g n =
      let (same, shown) = single_value-shown v x g in inr (e ∙ ap (λ s. s ∷ []) (same ∙ n shown))
  Says-of key x text headers (v ∷ w ∷ ws) e g n = cc g

  read_then :
      (headers : Header) (body : String) (meta : RequestMetadata)
      (r : Result InspectError RequestHeaders)
      → inspect_headers headers ≡ r
      → inspect_body d body r ≡ ok meta
      → (supported meta.protocol_revision ≡ true)
        × Of body meta
        × Says header_method headers meta.method
        × Says header_name headers meta.name
        × Says header_protocol_version headers meta.protocol_revision
  unfolding single_header
  read_then headers body meta (err x) e g = cc g
  read_then headers body meta (ok h) e g =
      let read = inspect_headers-Read headers h e in
      let said = inspect_body-Described body h meta g in
      (
        said.known,
        inspect_body-Of body h meta g,
        Says-of header_method h.method meta.method headers (values header_method headers) refl
            read.method said.method,
        Says-of header_name h.name meta.name headers (values header_name headers) refl read.name
            said.name,
        Says-of header_protocol_version h.revision meta.protocol_revision headers
            (values header_protocol_version headers) refl read.revision said.revision,
      )

  -- A request that passes the inspection has a known protocol revision; its body is empty or one
  -- message, and the metadata have the method, the name and the id of that message and the revision
  -- that it names, where it names one; and each of the three headers is missing or stands once and
  -- is what the metadata say: the method, the name and the revision.
  pub inspect_request-Says :
      (headers : Header) (body : String) (meta : RequestMetadata)
      → inspect_request d headers body ≡ ok meta
      → (supported meta.protocol_revision ≡ true)
        × Of body meta
        × Says header_method headers meta.method
        × Says header_name headers meta.name
        × Says header_protocol_version headers meta.protocol_revision
  unfolding inspect_request
  inspect_request-Says headers body meta g =
      read_then headers body meta (inspect_headers headers) refl g
