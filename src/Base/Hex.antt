-- ===== src/Base/Hex.antt =====
-- Go's `encoding/hex` over lists of bytes.
use Prim.Native.Nat.{ℕ, zero, suc, ◌+◌, ◌-◌, ◌*◌, ◌/◌, ◌%◌, ◌<◌}
use Prim.Native.Char.{Char, code}
use Prim.Native.String.{String, char_at}
use mathlib.Core.Path.{◌≡◌, refl, ap}
use mathlib.Core.Bool.{Bool, true, false, ◌&&◌}
use mathlib.Core.Option.{Option, none, some}
use mathlib.Core.List.{List, [], ◌∷◌}
use native.Mathlib.Omega.{arith}
use mcp_audit.Base.Tests.{leb, nat_eq, if◌then◌else◌}
use mcp_audit.Base.Lists.{All}

abbrev pub IsByte : ℕ → Type 0
IsByte b = b < 256

hex_digit : ℕ → Char
hex_digit n = char_at "0123456789abcdef" n

-- `hex.EncodeToString`.
unfoldable pub hex_encode : List ℕ → String
unfolding hex_digit
hex_encode [] = String.[]
hex_encode (b ∷ bytes) =
    String.◌∷◌ (hex_digit (b / 16)) (String.◌∷◌ (hex_digit (b % 16)) (hex_encode bytes))

-- The value of a digit, in either case.
hex_value : ℕ → Option ℕ
hex_value c =
    if leb b'0' c && leb c b'9'
    then some (c - b'0')
    else if leb b'a' c && leb c b'f'
    then some (c - b'a' + 10)
    else if leb b'A' c && leb c b'F'
    then some (c - b'A' + 10)
    else none

infixl 5 ◌>>=◌
abbrev ◌>>=◌ {ℓ κ} : {A : Type ℓ} {B : Type κ} → Option A → (A → Option B) → Option B
none >>= k = none
some a >>= k = k a

-- `hex.DecodeString`: refuses an odd length and a digit that is none.
unfoldable pub hex_decode : String → Option (List ℕ)
unfolding hex_value
hex_decode String.[] = some []
hex_decode (String.◌∷◌ c String.[]) = none
hex_decode (String.◌∷◌ c (String.◌∷◌ d s)) = do
  high ← hex_value (code c)
  low ← hex_value (code d)
  rest ← hex_decode s
  some ((high * 16 + low) ∷ rest)

digit_ok : ℕ → Bool
digit_ok n = elim (hex_value (code (hex_digit n))) [ none ↦ false | some v ↦ nat_eq v n ]

holds_below : (ℕ → Bool) → ℕ → Bool
holds_below test zero = true
holds_below test (suc limit) = holds_below test limit && test limit

holds_below-member :
    (test : ℕ → Bool) (limit n : ℕ) → n < limit → holds_below test limit ≡ true → test n ≡ true
unfolding holds_below
holds_below-member test zero n lt h = absurd (omega arith)
holds_below-member test (suc limit) n lt h = ground (arith, holds_below-member test limit n)

digit_table : holds_below digit_ok 16 ≡ true
unfolding holds_below digit_ok hex_value hex_digit
digit_table = refl

digit_ok_sound : (n : ℕ) → digit_ok n ≡ true → hex_value (code (hex_digit n)) ≡ some n
unfolding digit_ok
digit_ok_sound n h = ground (arith, h)

hex_value-hex_digit : (n : ℕ) → n < 16 → hex_value (code (hex_digit n)) ≡ some n
hex_value-hex_digit n lt = digit_ok_sound n (holds_below-member digit_ok 16 n lt digit_table)

hex_decode-cons :
    (c d : Char) (s : String)
    → hex_decode (String.◌∷◌ c (String.◌∷◌ d s)) ≡ (
        hex_value (code c) >>= λ high.
        hex_value (code d) >>= λ low. hex_decode s >>= λ rest. some ((high * 16 + low) ∷ rest))
unfolding hex_decode
hex_decode-cons c d s = refl

hex_encode-cons :
    (b : ℕ) (bytes : List ℕ)
    → hex_encode (b ∷ bytes)
      ≡ String.◌∷◌ (hex_digit (b / 16)) (String.◌∷◌ (hex_digit (b % 16)) (hex_encode bytes))
unfolding hex_encode
hex_encode-cons b bytes = refl

-- Decoding what was encoded gives the bytes back.
pub hex_decode-hex_encode :
    (bytes : List ℕ) → All IsByte bytes → hex_decode (hex_encode bytes) ≡ some bytes
hex_decode-hex_encode [] h = unfold hex_encode hex_decode in refl
hex_decode-hex_encode (b ∷ bytes) (p, h) =
    rw
      (
        hex_encode-cons b bytes,
        hex_decode-cons,
        hex_value-hex_digit (b / 16) (omega arith),
        hex_value-hex_digit (b % 16) (omega arith),
        hex_decode-hex_encode bytes h,
      )
      (ap (λ (n : ℕ). some (n ∷ bytes)) (omega arith))

-- Only the empty list of bytes is written as the empty text.
pub hex_encode-eq_empty : (bytes : List ℕ) → hex_encode bytes ≡ String.[] → bytes ≡ []
unfolding hex_encode
hex_encode-eq_empty [] h = refl
hex_encode-eq_empty (b ∷ bytes) h = cc
