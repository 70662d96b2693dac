-- ===== src/Prelude/Text.antt =====
-- Template strings as their parts, the characters of a text, and the patterns of identifiers.
use Prim.Native.Char.{code}
use Prim.Native.Nat.{ℕ, zero, suc}
use Prim.Native.String
use Prim.Native.String.{String}
use mathlib.Core.Bool.{Bool, false, ◌&&◌, ◌||◌}
use mathlib.Core.Option.{Option}
use mathlib.Core.List.{List, [], ◌∷◌}
use obolos.Prelude.Tests.{leb, nat_beq}
use obolos.Prelude.Lists.{length, all}
use obolos.Prelude.Equality.{string_discrete}
use native.Mathlib.Decide.{ℕ_discrete}

-- A part of a template string: literal text, a number, a number divided by 10^decimals, what
-- stands behind the first slash of a text, or a date.
pub data Part : Type 0 where
  lit : String → Part
  num : ℕ → Part
  scaled : ℕ → ℕ → Part
  after_slash : String → Part
  date : Option ℕ → Part

abbrev pub Template : Type 0
Template = List Part

unfoldable pub Part-discrete : Discrete Part
unfolding string_discrete
Part-discrete = hlevel (string_discrete, ℕ_discrete)

-- The code points of a text.
abbrev pub codes : String → List ℕ
codes String.[] = []
codes (String.◌∷◌ c s) = code c ∷ codes s

-- A template string whose values are texts.
abbrev pub joined : List String → String
joined [] = ""
joined (s ∷ []) = s
joined (s ∷ t ∷ rest) = String.◌++◌ s (joined (t ∷ rest))

-- `slice(0,n)`
abbrev pub prefix_of : ℕ → String → String
prefix_of zero s = ""
prefix_of (suc n) String.[] = ""
prefix_of (suc n) (String.◌∷◌ c s) = String.◌∷◌ c (prefix_of n s)

abbrev pub is_digit : ℕ → Bool
is_digit c = leb b'0' c && leb c b'9'

-- [0-9a-fA-F]
abbrev pub is_hex : ℕ → Bool
is_hex c = is_digit c || (leb b'a' c && leb c b'f') || (leb b'A' c && leb c b'F')

-- The same of the code points.
unfoldable pub is_hex_codes : ℕ → List ℕ → Bool
is_hex_codes n (zero_digit ∷ x ∷ rest) =
    nat_beq zero_digit b'0' && nat_beq x b'x' && nat_beq (length rest) n && all is_hex rest
is_hex_codes n _ = false

-- /^0x[0-9a-fA-F]{n}$/
unfoldable pub is_hex_text : ℕ → String → Bool
unfolding is_hex_codes
is_hex_text n s = is_hex_codes n (codes s)
