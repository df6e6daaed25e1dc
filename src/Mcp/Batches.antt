-- ===== src/Mcp/Batches.antt =====
-- internal/mcp/message.go: what a body that decodes holds.
use mcp_audit.Base.{
  suc, ◌≤◌, String, Bool, true, false, ◌≡◌, refl, ap, inl, inr, List, [], ◌∷◌, Option, none, some,
  Result, ok, err, ◌==◌, Bool-cases, arith, length, nat_eq, ltb, All,
}
use mcp_audit.Base.Text.{trim_space}
use mcp_audit.Mcp.{Message}
use mcp_audit.Mcp.Requests.{
  InspectError, Decoder, max_batch_messages, with_method, decode_message, and_then, decode_items,
  batch_of, payload_messages, value_messages, decode_request, starts_with,
}

abbrev pub HasMethod : Message → Type 0
HasMethod m = (m.method == "") ≡ false

module _ (d : Decoder) where
  with_method-HasMethod : (o : Option Message) (m : Message) → with_method d o ≡ ok m → HasMethod m
  with_method-HasMethod none m h = cc h
  with_method-HasMethod (some n) m h = elim (Bool-cases (n.method == "")) [
    | inl empty ↦ cc (rw empty at h)
    | inr named ↦
        let given : ◌≡◌ {A = Result InspectError Message} (ok n) (ok m) = rw named at h in
        let same : n ≡ m = cc given in rw (← same) named
  ]

  decode_message-HasMethod :
      (raw : String) (m : Message) → decode_message d raw ≡ ok m → HasMethod m
  unfolding decode_message
  decode_message-HasMethod raw m h = elim (Bool-cases (starts_with b'{' (trim_space raw))) [
    | inl object ↦ with_method-HasMethod (d.unmarshal_message raw) m (rw object at h)
    | inr other ↦ cc (rw other at h)
  ]

  and_then-parts :
      (r : Result InspectError Message) (rs : Result InspectError (List Message))
      (ms : List Message)
      → and_then d r rs ≡ ok ms
      → (m : Message) × (rest : List Message) × (r ≡ ok m) × (rs ≡ ok rest) × (ms ≡ m ∷ rest)
  and_then-parts (err x) rs ms h = cc h
  and_then-parts (ok m) (err x) ms h = cc h
  and_then-parts (ok m) (ok rest) ms h = (m, rest, refl, refl, cc h)

  decode_items-each :
      (raws : List String) (ms : List Message)
      → decode_items d raws ≡ ok ms
      → (length ms ≡ length raws) × All HasMethod ms
  unfolding decode_items
  decode_items-each [] ms h = let same : [] ≡ ms = cc h in rw (← same) (refl, tt)
  decode_items-each (raw ∷ raws) ms h =
      let (m, rest, first, others, same) =
        and_then-parts (decode_message d raw) (decode_items d raws) ms h in
      let (count, named) = decode_items-each raws rest others in
      rw same (ap suc count, (decode_message-HasMethod raw m first, named))

  -- At least one message and at most the bound.
  abbrev Bounded : List Message → Type 0
  Bounded ms = (1 ≤ length ms) × (length ms ≤ max_batch_messages) × All HasMethod ms

  batch_of-Bounded :
      (o : Option (List String)) (ms : List Message) → batch_of d o ≡ ok ms → Bounded ms
  batch_of-Bounded none ms h = cc h
  batch_of-Bounded (some raws) ms h = elim (Bool-cases (nat_eq (length raws) 0)) [
    | inl empty ↦ cc (rw empty at h)
    | inr shown ↦ elim (Bool-cases (ltb max_batch_messages (length raws))) [
      | inl large ↦ cc (rw (shown, large) at h)
      | inr small ↦
          let (count, named) = decode_items-each raws ms (rw (shown, small) at h) in
          (ground (arith, shown, count), ground (arith, small, count), named)
    ]
  ]

  payload-Bounded :
      (payload : String) (ms : List Message) → payload_messages d payload ≡ ok ms → Bounded ms
  payload-Bounded payload ms h = elim (Bool-cases (payload == "")) [
    | inl empty ↦ cc (rw empty at h)
    | inr shown ↦ elim (Bool-cases (starts_with b'[' payload)) [
      | inl array ↦ batch_of-Bounded (d.unmarshal_items payload) ms (rw (shown, array) at h)
      | inr single ↦
          let (m, rest, first, others, same) =
            and_then-parts (decode_message d payload) (ok []) ms (rw (shown, single) at h) in
          let alone : [] ≡ rest = cc others in
          rw (same, ← alone)
            (omega arith, omega arith, (decode_message-HasMethod payload m first, tt))
    ]
  ]

  value-Bounded :
      (o : Option (String × Bool)) (ms : List Message) → value_messages d o ≡ ok ms → Bounded ms
  value-Bounded none ms h = cc h
  value-Bounded (some (payload, false)) ms h = cc h
  value-Bounded (some (payload, true)) ms h = payload-Bounded (trim_space payload) ms h

  -- A body that decodes has from 1 to 1024 messages, and each of them names a method.
  pub decode_request-bounded :
      (raw : String) (ms : List Message)
      → decode_request d raw ≡ ok ms
      → (1 ≤ length ms) × (length ms ≤ max_batch_messages) × All HasMethod ms
  unfolding decode_request
  decode_request-bounded raw ms h = value-Bounded (d.decode_value raw) ms h
