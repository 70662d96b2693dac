-- ===== src/Negotiation/Base64.antt =====
-- base64url, as `Buffer` writes bytes and reads them from a text of its alphabet.
pub mod RoundTrip
use obolos.Prelude.{ℕ, ◌+◌, ◌-◌, ◌*◌, ◌/◌, ◌%◌, Bool, ◌||◌, ◌&&◌, List, [], ◌∷◌, if◌then◌else◌}
use obolos.Prelude.{ltb, leb, nat_beq, is_digit}

abbrev pub digit_of : ℕ → ℕ
digit_of v =
    if ltb v 26
    then v + 65
    else if ltb v 52
    then v + 71
    else if ltb v 62
    then v - 4
    else if nat_beq v 62
    then 45
    else 95

abbrev pub value_of : ℕ → ℕ
value_of c =
    if is_digit c
    then c + 4
    else if leb 65 c && leb c 90
    then c - 65
    else if leb 97 c && leb c 122
    then c - 71
    else if nat_beq c 45
    then 62
    else 63

-- [-_A-Za-z0-9]
abbrev pub is_base64url : ℕ → Bool
is_base64url c =
    nat_beq c b'-'
    || nat_beq c b'_'
    || (leb b'A' c && leb c b'Z')
    || (leb b'a' c && leb c b'z')
    || is_digit c

-- toString('base64url')
unfoldable pub encode : List ℕ → List ℕ
encode [] = []
encode (a ∷ []) = digit_of (a / 4) ∷ digit_of (a % 4 * 16) ∷ []
encode (a ∷ b ∷ []) = digit_of (a / 4) ∷ digit_of (a % 4 * 16 + b / 16) ∷ digit_of (b % 16 * 4) ∷ []
encode (a ∷ b ∷ c ∷ rest) =
    digit_of (a / 4)
    ∷ digit_of (a % 4 * 16 + b / 16)
    ∷ digit_of (b % 16 * 4 + c / 64)
    ∷ digit_of (c % 64)
    ∷ encode rest

abbrev pub first_byte : ℕ → ℕ → ℕ
first_byte v w = v * 4 + w / 16

abbrev pub second_byte : ℕ → ℕ → ℕ
second_byte v w = v % 16 * 16 + w / 4

abbrev pub third_byte : ℕ → ℕ → ℕ
third_byte v w = v % 4 * 64 + w

-- Buffer.from(text,'base64url') on a text of the alphabet; bits that make no byte are dropped.
unfoldable pub decode : List ℕ → List ℕ
decode [] = []
decode (a ∷ []) = []
decode (a ∷ b ∷ []) = first_byte (value_of a) (value_of b) ∷ []
decode (a ∷ b ∷ c ∷ []) =
    first_byte (value_of a) (value_of b) ∷ second_byte (value_of b) (value_of c) ∷ []
decode (a ∷ b ∷ c ∷ d ∷ rest) =
    first_byte (value_of a) (value_of b)
    ∷ second_byte (value_of b) (value_of c)
    ∷ third_byte (value_of c) (value_of d)
    ∷ decode rest
