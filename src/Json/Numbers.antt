-- ===== src/Json/Numbers.antt =====
-- Numbers of JSON: as `json.dumps` writes integers, as `json.loads` reads numbers, and that integers
-- are read back.
use cypher_syntax.Py.Value.{Value, int, float, Text}
use cypher_syntax.Py.Text.{all_of, digits, decimal, value_of, value_of-decimal}
use cypher_syntax.Prelude.{
  ℕ, zero, suc, ◌+◌, ◌-◌, ◌/◌, ◌%◌, ◌≤◌, ◌<◌, ◌≡◌, refl, ◌≢◌, inl, inr, Bool, true, false, not,
  ◌&&◌, ◌||◌, Option, none, some, [], ◌∷◌, ◌++◌, arith, ltb, leb, ◌==◌, if◌then◌else◌, Bool-cases,
  ℤ, pos, negsuc,
}

-- `int.__repr__`
unfoldable pub int_text : ℤ → Text
int_text (pos n) = decimal n
int_text (negsuc n) = b'-' ∷ decimal (suc n)

abbrev pub is_digit : ℕ → Bool
is_digit c = leb b'0' c && leb c b'9'

-- the digits in front, and the rest
unfoldable pub span_digits : Text → Text × Text
span_digits [] = ([], [])
span_digits (c ∷ text) =
    let (front, rest) = span_digits text in if is_digit c then (c ∷ front, rest) else ([], c ∷ text)

-- `0|[1-9]\d*`
unfoldable pub whole_part : Text → Option (Text × Text)
whole_part [] = none
whole_part (c ∷ text) =
    if c == b'0'
    then some (c ∷ [], text)
    else if is_digit c
    then some (c ∷ (span_digits text).0, (span_digits text).1)
    else none

-- digits behind a mark, or nothing where no digit stands
abbrev pub with_digits : Text → Text → Text × Text → Text × Text
with_digits mark whole ([], rest) = ([], whole)
with_digits mark whole (d ∷ front, rest) = (mark ++ d ∷ front, rest)

-- `(\.\d+)?`
unfoldable pub fraction_part : Text → Text × Text
fraction_part [] = ([], [])
fraction_part (c ∷ text) =
    if c == b'.' then with_digits (c ∷ []) (c ∷ text) (span_digits text) else ([], c ∷ text)

abbrev pub exponent_digits : ℕ → Text → Text × Text
exponent_digits e [] = ([], e ∷ [])
exponent_digits e (c ∷ text) =
    if c == b'+' || c == b'-'
    then with_digits (e ∷ c ∷ []) (e ∷ c ∷ text) (span_digits text)
    else with_digits (e ∷ []) (e ∷ c ∷ text) (span_digits (c ∷ text))

-- `([eE][-+]?\d+)?`
unfoldable pub exponent_part : Text → Text × Text
exponent_part [] = ([], [])
exponent_part (c ∷ text) = if c == b'e' || c == b'E' then exponent_digits c text else ([], c ∷ text)

-- `int(text)`: there is no -0
abbrev pub signed : Bool → ℕ → ℤ
signed negative n = if negative && not (n == 0) then negsuc (n - 1) else pos n

abbrev pub sign_text : Bool → Text
sign_text negative = if negative then b'-' ∷ [] else []

abbrev pub number_value : Bool → Text → Text → Text → Value
number_value negative whole [] [] = int (signed negative (value_of 0 whole))
number_value negative whole fraction exponent =
    float (sign_text negative ++ whole ++ fraction ++ exponent)

abbrev pub after_whole : Bool → Option (Text × Text) → Option (Value × Text)
after_whole negative none = none
after_whole negative (some (whole, text)) =
    let (fraction, rest) = fraction_part text in
    let (exponent, last) = exponent_part rest in
    some (number_value negative whole fraction exponent, last)

-- a number behind its sign
unfoldable pub read_number : Bool → Text → Option (Value × Text)
read_number negative text = after_whole negative (whole_part text)

-- what stops a number
abbrev pub Stops : Text → Type 0
Stops [] = Unit
Stops (c ∷ text) = (is_digit c ≡ false) × (c ≢ b'.') × (c ≢ b'e') × (c ≢ b'E')

span_digits-append :
    (ds rest : Text)
    → all_of is_digit ds ≡ true
    → Stops rest
    → span_digits (ds ++ rest) ≡ (ds, rest)
unfolding span_digits
span_digits-append [] [] h s = refl
span_digits-append [] (c ∷ rest) h s = ground arith
span_digits-append (d ∷ ds) rest h s = ground (arith, span_digits-append ds rest)

-- the digits of a positive number, the first of them not zero
record Leading (text : Text) : Type 0 where
  first : ℕ
  others : Text
  spelled : text ≡ first ∷ others
  first_range : (b'1' ≤ first) × (first ≤ b'9')
  others_digits : all_of is_digit others ≡ true

digits-Leading :
    (fuel n : ℕ) (out : Text)
    → n < fuel
    → 0 < n
    → all_of is_digit out ≡ true
    → Leading (digits fuel n out)
unfolding digits
digits-Leading zero n out h p d = absurd (omega arith)
digits-Leading (suc fuel) n out h p d = elim (Bool-cases (ltb n 10)) [
  | inl e ↦ rw e (record {
    first = b'0' + n;
    others = out;
    spelled = refl;
    first_range = ground arith;
    others_digits = d;
  })
  | inr e ↦ rw e (
      digits-Leading fuel (n / 10) ((b'0' + n % 10) ∷ out) (ground arith) (ground arith)
        (ground arith))
]

fraction-Stops : (rest : Text) → Stops rest → fraction_part rest ≡ ([], rest)
unfolding fraction_part
fraction-Stops [] s = refl
fraction-Stops (c ∷ rest) s = ground arith

exponent-Stops : (rest : Text) → Stops rest → exponent_part rest ≡ ([], rest)
unfolding exponent_part
exponent-Stops [] s = refl
exponent-Stops (c ∷ rest) s = ground arith

whole-decimal :
    (n : ℕ) (rest : Text) → Stops rest → whole_part (decimal n ++ rest) ≡ some (decimal n, rest)
unfolding whole_part
whole-decimal zero rest s = unfold decimal digits in refl
whole-decimal (suc n) rest s =
    let l : Leading (decimal (suc n)) =
      unfold decimal in digits-Leading (suc (suc n)) (suc n) [] (omega arith) (omega arith) refl in
    rw l.spelled (ground (arith, span_digits-append l.others rest l.others_digits s, l.first_range))

-- An integer that `dumps` wrote is read back, up to what stops a number.
pub read_number-decimal :
    (negative : Bool) (n : ℕ) (rest : Text)
    → Stops rest
    → read_number negative (decimal n ++ rest) ≡ some (int (signed negative n), rest)
unfolding read_number
read_number-decimal negative n rest s =
    rw (whole-decimal n rest s, fraction-Stops rest s, exponent-Stops rest s, value_of-decimal n)
      refl

-- a printed number begins with a digit
pub decimal-first : (n : ℕ) → (d : ℕ) × (ds : Text) × (decimal n ≡ d ∷ ds) × (is_digit d ≡ true)
decimal-first zero = (b'0', [], unfold decimal digits in refl, refl)
decimal-first (suc n) =
    let l : Leading (decimal (suc n)) =
      unfold decimal in digits-Leading (suc (suc n)) (suc n) [] (omega arith) (omega arith) refl in
    (l.first, l.others, l.spelled, ground (arith, l.first_range))
