-- ===== src/Verify/Digest.antt =====
-- internal/audit/verify/checkpoint.go: the framing of the records that are hashed.
use mcp_audit.Base.{ℕ, ◌^◌, ◌<◌, ◌≡◌, refl, ap, sym, ◌∙◌, List, [], ◌∷◌, ◌++◌, arith, length, All}
use mcp_audit.Verify.{OrderedDigest, new_ordered_digest, put_uint64, add}

-- The calls of `add` for a sequence of records, in order.
unfoldable pub add_all : List (List ℕ) → OrderedDigest → OrderedDigest
add_all [] d = d
add_all (r ∷ rs) d = add_all rs (add r d)

-- What `add_all` writes.
abbrev frames : List (List ℕ) → List ℕ
frames [] = []
frames (r ∷ rs) = put_uint64 (length r) ++ (r ++ frames rs)

append_assoc : (xs ys zs : List ℕ) → (xs ++ ys) ++ zs ≡ xs ++ (ys ++ zs)
append_assoc [] ys zs = refl
append_assoc (x ∷ xs) ys zs = ap {B = List ℕ} (λ t. x ∷ t) (append_assoc xs ys zs)

append_nil : (xs : List ℕ) → xs ++ [] ≡ xs
append_nil [] = refl
append_nil (x ∷ xs) = ap {B = List ℕ} (λ t. x ∷ t) (append_nil xs)

add_all-written :
    (rs : List (List ℕ)) (d : OrderedDigest) → (add_all rs d).written ≡ d.written ++ frames rs
unfolding add_all add
add_all-written [] d = sym (append_nil d.written)
add_all-written (r ∷ rs) d =
    add_all-written rs (add r d) ∙ append_assoc d.written (put_uint64 (length r) ++ r) (frames rs)

head_eq : {x y : ℕ} {xs ys : List ℕ} → ◌≡◌ {A = List ℕ} (x ∷ xs) (y ∷ ys) → x ≡ y
head_eq h = cc h

tail_eq : {x y : ℕ} {xs ys : List ℕ} → ◌≡◌ {A = List ℕ} (x ∷ xs) (y ∷ ys) → xs ≡ ys
tail_eq h = cc h

-- Eight bytes determine a number below 2 ^ 64.
put_uint64-injective :
    (m n : ℕ) (xs ys : List ℕ)
    → m < 2 ^ 64
    → n < 2 ^ 64
    → put_uint64 m ++ xs ≡ put_uint64 n ++ ys
    → (m ≡ n) × (xs ≡ ys)
put_uint64-injective m n xs ys hm hn h =
    let a = head_eq h in
    let h1 = tail_eq h in
    let b = head_eq h1 in
    let h2 = tail_eq h1 in
    let c = head_eq h2 in
    let h3 = tail_eq h2 in
    let d = head_eq h3 in
    let h4 = tail_eq h3 in
    let e = head_eq h4 in
    let h5 = tail_eq h4 in
    let f = head_eq h5 in
    let h6 = tail_eq h5 in
    let g = head_eq h6 in
    let h7 = tail_eq h6 in
    let i = head_eq h7 in (omega (arith, a, b, c, d, e, f, g, i, hm, hn), tail_eq h7)

-- A prefix of known length is determined.
append-injective :
    (a b xs ys : List ℕ) → length a ≡ length b → a ++ xs ≡ b ++ ys → (a ≡ b) × (xs ≡ ys)
append-injective [] [] xs ys same h = (refl, h)
append-injective [] (y ∷ b) xs ys same h = absurd (omega (arith, same))
append-injective (x ∷ a) [] xs ys same h = absurd (omega (arith, same))
append-injective (x ∷ a) (y ∷ b) xs ys same h =
    let (p, q) = append-injective a b xs ys (omega (arith, same)) (tail_eq h) in
    (cc (head_eq h, p), q)

-- Records that fit into a uint64.
abbrev pub Short : List ℕ → Type 0
Short r = length r < 2 ^ 64

frames-injective :
    (rs qs : List (List ℕ)) → All Short rs → All Short qs → frames rs ≡ frames qs → rs ≡ qs
frames-injective [] [] hr hq h = refl
frames-injective [] (q ∷ qs) hr hq h = cc h
frames-injective (r ∷ rs) [] hr hq h = cc h
frames-injective (r ∷ rs) (q ∷ qs) (hr, hrs) (hq, hqs) h =
    let (size, rest) = put_uint64-injective (length r) (length q) _ _ hr hq h in
    let (same, more) = append-injective r q (frames rs) (frames qs) size rest in
    cc (same, frames-injective rs qs hrs hqs more)

-- What is hashed determines the records and their order: two sequences of records of fewer than
-- 2 ^ 64 bytes each that write the same bytes are equal.
pub add_all-injective :
    (rs qs : List (List ℕ))
    → All Short rs
    → All Short qs
    → (add_all rs new_ordered_digest).written ≡ (add_all qs new_ordered_digest).written
    → rs ≡ qs
add_all-injective rs qs hr hq h =
    frames-injective rs qs hr hq
      (sym (add_all-written rs new_ordered_digest) ∙ h ∙ add_all-written qs new_ordered_digest)
