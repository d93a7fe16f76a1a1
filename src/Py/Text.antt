-- ===== src/Py/Text.antt =====
-- Python's `str`: text literals, encodings, `strip`, `isprintable`.
use Prim.Native.Char.{code}
use mathlib.Core.List.{reverse}
use Prim.Native.String.{String}
pub use cypher_syntax.Py.Utf8.{all_of}
use cypher_syntax.Py.Result.{Error, Result, ok, err, value_error}
use cypher_syntax.Py.Value.{Bytes, Text}
use cypher_syntax.Py.Utf8.{encode, decode, encode-injective, decode-encode}
use cypher_syntax.Prelude.{
  ℕ, zero, suc, ◌+◌, ◌-◌, ◌*◌, ◌/◌, ◌%◌, ◌<◌, ◌≡◌, refl, ap, ◌∙◌, Bool, true, ◌&&◌, ◌||◌, Option,
  none, some, List, [], ◌∷◌, arith, ltb, leb, ◌==◌, if◌then◌else◌,
}

-- the code points of a literal; its bytes too, for these are all ASCII
abbrev pub ascii : String → List ℕ
ascii String.[] = []
ascii (String.◌∷◌ c s) = code c ∷ ascii s

abbrev encoded : Option Bytes → Result Bytes
encoded none = err value_error
encoded (some bs) = ok bs

-- `text.encode("utf-8")`: UnicodeEncodeError is a ValueError
unfoldable pub utf8 : Text → Result Bytes
unfolding encode
utf8 text = encoded (encode text)

encoded-eq-ok : (o : Option Bytes) {bs : Bytes} → encoded o ≡ ok bs → o ≡ some bs
encoded-eq-ok o h = ground arith

encoded-raises : (o : Option Bytes) (e : Error) → encoded o ≡ err e → e ≡ value_error
encoded-raises none e h = cc
encoded-raises (some bs) e h = absurd (cc)

pub utf8-raises : (text : Text) (e : Error) → utf8 text ≡ err e → e ≡ value_error
unfolding utf8
utf8-raises text e h = encoded-raises (encode text) e h

pub utf8-injective : (s t : Text) {bs : Bytes} → utf8 s ≡ ok bs → utf8 t ≡ ok bs → s ≡ t
unfolding utf8
utf8-injective s t {bs} hs ht =
    encode-injective s t bs (encoded-eq-ok (encode s) hs) (encoded-eq-ok (encode t) ht)

-- the code points that `strip` takes off: Python's `isspace`
unfoldable pub is_space : ℕ → Bool
is_space c =
    leb 9 c && leb c 13
    || leb 28 c && leb c 32
    || c == 0x85
    || c == 0xa0
    || c == 0x1680
    || leb 0x2000 c && leb c 0x200a
    || c == 0x2028
    || c == 0x2029
    || c == 0x202f
    || c == 0x205f
    || c == 0x3000

drop_spaces : Text → Text
drop_spaces [] = []
drop_spaces (c ∷ text) = if is_space c then drop_spaces text else c ∷ text

unfoldable pub strip : Text → Text
unfolding drop_spaces is_space
strip text = reverse (drop_spaces (reverse (drop_spaces text)))

-- the decimal digits of a number in front of `out`, on fuel
unfoldable pub digits : ℕ → ℕ → Text → Text
digits zero n out = out
digits (suc fuel) n out =
    let rest = digits fuel (n / 10) ((b'0' + n % 10) ∷ out) in
    if ltb n 10 then (b'0' + n) ∷ out else rest

-- `str(n)` of a number that is not negative: it has fewer digits than its value and one
unfoldable pub decimal : ℕ → Text
unfolding digits
decimal n = digits (suc n) n []

-- the number that digits spell behind `n`
pub value_of : ℕ → Text → ℕ
value_of n [] = n
value_of n (c ∷ text) = value_of (n * 10 + (c - b'0')) text

value_of-digits :
    (fuel n : ℕ) (out : Text) → n < fuel → value_of 0 (digits fuel n out) ≡ value_of n out
unfolding digits value_of
value_of-digits zero n out h = absurd (omega arith)
value_of-digits (suc fuel) n out h =
    ground (arith, value_of-digits fuel (n / 10) ((b'0' + n % 10) ∷ out))

pub value_of-decimal : (n : ℕ) → value_of 0 (decimal n) ≡ n
unfolding decimal
value_of-decimal n = value_of-digits (suc n) n [] (omega arith) ∙ (unfold value_of in refl)

pub decimal-injective : (n m : ℕ) → decimal n ≡ decimal m → n ≡ m
decimal-injective n m e = cc (value_of-decimal n, value_of-decimal m, ap (value_of 0) e)

pub decode-utf8 : (text : Text) (bs : Bytes) → utf8 text ≡ ok bs → decode bs ≡ some text
unfolding utf8
decode-utf8 text bs h = decode-encode text bs (encoded-eq-ok (encode text) h)

pub all_of_weaken :
    (p q : ℕ → Bool) (text : Text)
    → ((c : ℕ) → p c ≡ true → q c ≡ true)
    → all_of p text ≡ true
    → all_of q text ≡ true
all_of_weaken p q [] h e = refl
all_of_weaken p q (c ∷ text) h e = ground (arith, h c, all_of_weaken p q text h)
