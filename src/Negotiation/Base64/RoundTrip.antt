-- ===== src/Negotiation/Base64/RoundTrip.antt =====
-- What base64url keeps: bytes are read back from their text, which is of the alphabet.
use obolos.Prelude.{ℕ, ◌+◌, ◌*◌, ◌/◌, ◌%◌, ◌<◌, ◌≡◌, refl, true, List, [], ◌∷◌, All, all}
use obolos.Prelude.{length, arith}
use obolos.Negotiation.Base64.{
  encode, decode, first_byte, second_byte, third_byte, digit_of, value_of, is_base64url,
}

abbrev pub IsByte : ℕ → Type 0
IsByte b = b < 256

pub value_of-digit_of : (v : ℕ) → v < 64 → value_of (digit_of v) ≡ v
value_of-digit_of v h = ground arith

is_base64url-digit_of : (v : ℕ) → v < 64 → is_base64url (digit_of v) ≡ true
is_base64url-digit_of v h = ground arith

-- The bytes that two digits hold, each at its place.
first_byte_lem : (a r : ℕ) → a < 256 → r < 16 → first_byte (a / 4) (a % 4 * 16 + r) ≡ a
first_byte_lem a r h k = omega arith

second_byte_lem :
    (a b r : ℕ) → b < 256 → r < 4 → second_byte (a % 4 * 16 + b / 16) (b % 16 * 4 + r) ≡ b
second_byte_lem a b r h k = omega arith

third_byte_lem : (b c : ℕ) → c < 256 → third_byte (b % 16 * 4 + c / 64) (c % 64) ≡ c
third_byte_lem b c h = omega arith

only_byte_lem : (a : ℕ) → a < 256 → first_byte (a / 4) (a % 4 * 16) ≡ a
only_byte_lem a h = omega arith

last_byte_lem : (a b : ℕ) → b < 256 → second_byte (a % 4 * 16 + b / 16) (b % 16 * 4) ≡ b
last_byte_lem a b h = omega arith

only_lt : (a : ℕ) → a % 4 * 16 < 64
only_lt a = omega arith

last_lt : (b : ℕ) → b % 16 * 4 < 64
last_lt b = omega arith

-- Each digit of a group of three bytes is below 64.
first_lt : (a : ℕ) → a < 256 → a / 4 < 64
first_lt a h = omega arith

second_lt : (a b : ℕ) → b < 256 → a % 4 * 16 + b / 16 < 64
second_lt a b h = omega arith

third_lt : (b c : ℕ) → c < 256 → b % 16 * 4 + c / 64 < 64
third_lt b c h = omega arith

fourth_lt : (c : ℕ) → c % 64 < 64
fourth_lt c = omega arith

pub decode-encode : (bytes : List ℕ) → All IsByte bytes → decode (encode bytes) ≡ bytes
unfolding encode decode
decode-encode [] h = refl
decode-encode (a ∷ []) (ha, h) =
    rw
      (
        value_of-digit_of (a / 4) (first_lt a ha),
        value_of-digit_of (a % 4 * 16) (only_lt a),
        only_byte_lem a ha,
      )
      refl
decode-encode (a ∷ b ∷ []) (ha, (hb, h)) =
    rw
      (
        value_of-digit_of (a / 4) (first_lt a ha),
        value_of-digit_of (a % 4 * 16 + b / 16) (second_lt a b hb),
        value_of-digit_of (b % 16 * 4) (last_lt b),
        first_byte_lem a (b / 16) ha (omega arith),
        last_byte_lem a b hb,
      )
      refl
decode-encode (a ∷ b ∷ c ∷ rest) (ha, (hb, (hc, h))) =
    rw
      (
        value_of-digit_of (a / 4) (first_lt a ha),
        value_of-digit_of (a % 4 * 16 + b / 16) (second_lt a b hb),
        value_of-digit_of (b % 16 * 4 + c / 64) (third_lt b c hc),
        value_of-digit_of (c % 64) (fourth_lt c),
        first_byte_lem a (b / 16) ha (omega arith),
        second_byte_lem a b (c / 64) hb (omega arith),
        third_byte_lem b c hc,
        decode-encode rest h,
      )
      refl

pub all-encode : (bytes : List ℕ) → All IsByte bytes → all is_base64url (encode bytes) ≡ true
unfolding encode
all-encode [] h = refl
all-encode (a ∷ []) (ha, h) =
    rw
      (
        is_base64url-digit_of (a / 4) (first_lt a ha),
        is_base64url-digit_of (a % 4 * 16) (only_lt a),
      )
      refl
all-encode (a ∷ b ∷ []) (ha, (hb, h)) =
    rw
      (
        is_base64url-digit_of (a / 4) (first_lt a ha),
        is_base64url-digit_of (a % 4 * 16 + b / 16) (second_lt a b hb),
        is_base64url-digit_of (b % 16 * 4) (last_lt b),
      )
      refl
all-encode (a ∷ b ∷ c ∷ rest) (ha, (hb, (hc, h))) =
    rw
      (
        is_base64url-digit_of (a / 4) (first_lt a ha),
        is_base64url-digit_of (a % 4 * 16 + b / 16) (second_lt a b hb),
        is_base64url-digit_of (b % 16 * 4 + c / 64) (third_lt b c hc),
        is_base64url-digit_of (c % 64) (fourth_lt c),
        all-encode rest h,
      )
      refl

pub length-encode : (bytes : List ℕ) → length (encode bytes) ≡ (4 * length bytes + 2) / 3
unfolding encode
length-encode [] = refl
length-encode (a ∷ []) = refl
length-encode (a ∷ b ∷ []) = refl
length-encode (a ∷ b ∷ c ∷ rest) = omega (arith, length-encode rest)
