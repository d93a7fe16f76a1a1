-- ===== src/Py/Hex.antt =====
-- `bytes.hex`, `bytes.fromhex` of lowercase digits, and that the second inverts the first.

use cypher_syntax.Py.Value.{Value, bytes, Text, Bytes}
use cypher_syntax.Py.Text.{all_of, all_of_weaken}
use cypher_syntax.Py.Utf8.{is_scalar}
use cypher_syntax.Prelude.{
  ℕ, ◌+◌, ◌-◌, ◌*◌, ◌/◌, ◌%◌, ◌<◌, ◌≡◌, refl, Bool, true, ◌&&◌, ◌||◌, [], ◌∷◌, arith, ltb, leb,
  if◌then◌else◌, length,
}

-- one digit of a number below 16
abbrev hex_digit : ℕ → ℕ
hex_digit n = if ltb n 10 then b'0' + n else b'a' + (n - 10)

unfoldable pub hex : Bytes → Text
hex [] = []
hex (b ∷ bs) = hex_digit (b / 16) ∷ hex_digit (b % 16) ∷ hex bs

-- `[0-9a-f]`
abbrev pub is_hex_digit : ℕ → Bool
is_hex_digit c = leb b'0' c && leb c b'9' || leb b'a' c && leb c b'f'

abbrev digit_value : ℕ → ℕ
digit_value c = if leb c b'9' then c - b'0' else 10 + (c - b'a')

-- of digits that `is_hex_digit` accepts, an even number of them
unfoldable pub from_hex : Text → Bytes
from_hex [] = []
from_hex (c ∷ []) = []
from_hex (c ∷ d ∷ text) = (digit_value c * 16 + digit_value d) ∷ from_hex text

-- what a byte string is
abbrev pub AreBytes : Bytes → Type 0
AreBytes [] = Unit
AreBytes (b ∷ bs) = (b < 256) × AreBytes bs

abbrev pub HoldsBytes : Value → Type 0
HoldsBytes (bytes bs) = AreBytes bs
HoldsBytes _ = Unit

pub from_hex-hex : (bs : Bytes) → AreBytes bs → from_hex (hex bs) ≡ bs
unfolding from_hex hex
from_hex-hex [] h = refl
from_hex-hex (b ∷ bs) (h, hs) = ground (arith, from_hex-hex bs hs)

pub hex-all_digits : (bs : Bytes) → AreBytes bs → all_of is_hex_digit (hex bs) ≡ true
unfolding hex
hex-all_digits [] h = refl
hex-all_digits (b ∷ bs) (h, hs) = ground (arith, hex-all_digits bs hs)

pub length-hex : (bs : Bytes) → length (hex bs) ≡ 2 * length bs
unfolding hex
length-hex [] = refl
length-hex (b ∷ bs) = ground (arith, length-hex bs)

pub hex-all_scalar : (bs : Bytes) → AreBytes bs → all_of is_scalar (hex bs) ≡ true
hex-all_scalar bs h =
    all_of_weaken is_hex_digit is_scalar (hex bs) (λ c e. ground arith) (hex-all_digits bs h)
