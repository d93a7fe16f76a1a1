-- ===== src/Json/Scan.antt =====
-- String literals of JSON as `json.loads` reads them, and that it reads back what `dumps` wrote.
use cypher_syntax.Py.Value.{Text}
use cypher_syntax.Py.Text.{all_of}
use cypher_syntax.Py.Utf8.{is_scalar}
use cypher_syntax.Json.Strings.{
  hex_digit, unicode_escape, is_short_escape, short_letter, is_plain, escape_char, escape,
}
use cypher_syntax.Prelude.{
  ℕ, zero, suc, ◌+◌, ◌-◌, ◌*◌, ◌/◌, ◌%◌, ◌≤◌, ◌<◌, ◌≡◌, refl, ap, ◌∙◌, inl, inr, Bool, true, false,
  ◌&&◌, ◌||◌, Option, none, some, [], ◌∷◌, ◌++◌, append_assoc, arith, ltb, leb, ◌==◌, if◌then◌else◌,
  Bool-cases,
}

-- `int(digit, 16)`
unfoldable pub hex_value : ℕ → Option ℕ
hex_value c =
    if leb b'0' c && leb c b'9'
    then some (c - b'0')
    else if leb b'a' c && leb c b'f'
    then some (c - b'a' + 10)
    else if leb b'A' c && leb c b'F'
    then some (c - b'A' + 10)
    else none

-- where the scan stands: among characters, behind a backslash, or among the four digits of `\u`. A
-- high surrogate that was escaped waits for an escaped low one.
pub data Place : Type 0 where
  among : Option ℕ → Place
  behind : Option ℕ → Place
  within : ℕ → ℕ → Option ℕ → Place

pub data Move : Type 0 where
  fails : Move
  ends : Text → Move
  goes : Place → Text → Move

-- the surrogate that waited, for itself
abbrev held : Option ℕ → Text
held none = []
held (some high) = high ∷ []

-- a code unit that `\u` spelled
abbrev unit_read : Option ℕ → ℕ → Move
unit_read (some high) unit =
    if leb 0xdc00 unit && ltb unit 0xe000
    then goes (among none) ((0x10000 + (high - 0xd800) * 1024 + (unit - 0xdc00)) ∷ [])
    else if leb 0xd800 unit && ltb unit 0xdc00
    then goes (among (some unit)) (high ∷ [])
    else goes (among none) (high ∷ unit ∷ [])
unit_read none unit =
    if leb 0xd800 unit && ltb unit 0xdc00
    then goes (among (some unit)) []
    else goes (among none) (unit ∷ [])

-- the character of a short escape
abbrev short_value : ℕ → Option ℕ
short_value c =
    if c == b'"' || c == b'\\' || c == b'/'
    then some c
    else if c == b'n'
    then some 10
    else if c == b'r'
    then some 13
    else if c == b't'
    then some 9
    else if c == b'f'
    then some 12
    else if c == b'b'
    then some 8
    else none

abbrev short_read : Option ℕ → Option ℕ → Move
short_read high none = fails
short_read high (some c) = goes (among none) (held high ++ c ∷ [])

abbrev digit_read : ℕ → ℕ → Option ℕ → Option ℕ → Move
digit_read more unit high none = fails
digit_read zero unit high (some d) = unit_read high (unit * 16 + d)
digit_read (suc more) unit high (some d) = goes (within more (unit * 16 + d) high) []

abbrev pub move : Place → ℕ → Move
move (among high) c =
    if c == b'"'
    then ends (held high)
    else if c == b'\\'
    then goes (behind high) []
    else if ltb c 32
    then fails
    else goes (among none) (held high ++ c ∷ [])
move (behind high) c =
    if c == b'u' then goes (within 3 0 high) [] else short_read high (short_value c)
move (within more unit high) c = digit_read more unit high (hex_value c)

abbrev pub put : Text → Option (Text × Text) → Option (Text × Text)
put out none = none
put out (some (text, rest)) = some (out ++ text, rest)

abbrev pub go_on : Move → Text → (Place → Option (Text × Text)) → Option (Text × Text)
go_on fails rest scan = none
go_on (ends out) rest scan = some (out, rest)
go_on (goes place out) rest scan = put out (scan place)

-- the string up to the closing quote, and what follows it
unfoldable pub scan : Text → Place → Option (Text × Text)
scan [] place = none
scan (c ∷ text) place = go_on (move place c) text (scan text)

hex_value-digit : (d : ℕ) → d < 16 → hex_value (hex_digit d) ≡ some d
unfolding hex_value hex_digit
hex_value-digit d h = ground arith

put-nil : (o : Option (Text × Text)) → put [] o ≡ o
put-nil none = refl
put-nil (some p) = refl

-- four digits spell the unit that they were made from
scan-digits :
    (c : ℕ) (rest : Text) (high : Option ℕ)
    → c < 65536
    → scan
        (hex_digit (c / 4096)
          ∷ hex_digit (c / 256 % 16)
          ∷ hex_digit (c / 16 % 16)
          ∷ hex_digit (c % 16)
          ∷ rest)
        (within 3 0 high)
      ≡ go_on (unit_read high c) rest (scan rest)
unfolding scan
scan-digits c rest high h =
    let whole : (((0 * 16 + c / 4096) * 16 + c / 256 % 16) * 16 + c / 16 % 16) * 16 + c % 16 ≡ c =
      omega arith in
    rw
      (
        hex_value-digit (c / 4096) (omega arith),
        hex_value-digit (c / 256 % 16) (omega arith),
        hex_value-digit (c / 16 % 16) (omega arith),
        hex_value-digit (c % 16) (omega arith),
        whole,
      )
      (simp put-nil)

scan_u :
    (c : ℕ) (rest : Text) (high : Option ℕ)
    → c < 65536
    → scan (unicode_escape c ++ rest) (among high) ≡ go_on (unit_read high c) rest (scan rest)
scan_u c rest high h = opened ∙ scan-digits c rest high h
  where
    opened :
        scan (unicode_escape c ++ rest) (among high)
        ≡ scan
            (hex_digit (c / 4096)
              ∷ hex_digit (c / 256 % 16)
              ∷ hex_digit (c / 16 % 16)
              ∷ hex_digit (c % 16)
              ∷ rest)
            (within 3 0 high)
    opened = unfold scan in simp put-nil

-- a unit that is no surrogate stands for itself
scan-unicode_escape :
    (c : ℕ) (rest : Text)
    → c < 65536
    → is_scalar c ≡ true
    → scan (unicode_escape c ++ rest) (among none) ≡ put (c ∷ []) (scan rest (among none))
scan-unicode_escape c rest h scalar = scan_u c rest none h ∙ (ground (arith))

high_waits :
    (unit : ℕ) (rest : Text)
    → 0xd800 ≤ unit
    → unit < 0xdc00
    → go_on (unit_read none unit) rest (scan rest) ≡ put [] (scan rest (among (some unit)))
high_waits unit rest h k = ground arith

low_joins :
    (high unit : ℕ) (rest : Text)
    → 0xdc00 ≤ unit
    → unit < 0xe000
    → go_on (unit_read (some high) unit) rest (scan rest)
      ≡ put ((0x10000 + (high - 0xd800) * 1024 + (unit - 0xdc00)) ∷ []) (scan rest (among none))
low_joins high unit rest h k = ground arith

-- a pair of surrogates stands for the character that it was made from
scan-pair :
    (c : ℕ) (rest : Text)
    → 65536 ≤ c
    → c < 0x110000
    → scan
        (unicode_escape (0xd800 + (c - 0x10000) / 1024)
          ++ (unicode_escape (0xdc00 + (c - 0x10000) % 1024) ++ rest))
        (among none)
      ≡ put (c ∷ []) (scan rest (among none))
scan-pair c rest low high =
    let first = 0xd800 + (c - 0x10000) / 1024 in
    let second = 0xdc00 + (c - 0x10000) % 1024 in
    let rest' = unicode_escape second ++ rest in
    scan_u first rest' none (omega arith)
    ∙ high_waits first rest' (omega arith) (omega arith)
    ∙ ap (put []) (
        scan_u second rest (some first) (omega arith)
        ∙ low_joins first second rest (omega arith) (omega arith)
        ∙ ap (λ (x : ℕ). put (x ∷ []) (scan rest (among none))) (omega arith))
    ∙ put-nil _

scan-short :
    (c : ℕ) (rest : Text)
    → is_short_escape c ≡ true
    → scan (b'\\' ∷ short_letter c ∷ rest) (among none) ≡ put (c ∷ []) (scan rest (among none))
unfolding scan
scan-short c rest h = ground arith

scan-plain :
    (c : ℕ) (rest : Text)
    → is_short_escape c ≡ false
    → leb 32 c ≡ true
    → scan (c ∷ rest) (among none) ≡ put (c ∷ []) (scan rest (among none))
unfolding scan
scan-plain c rest h p = ground arith

scan-escape_char :
    (b : Bool) (c : ℕ) (rest : Text)
    → is_scalar c ≡ true
    → scan (escape_char b c ++ rest) (among none) ≡ put (c ∷ []) (scan rest (among none))
unfolding escape_char
scan-escape_char b c rest scalar = elim (Bool-cases (is_short_escape c)) [
  | inl e ↦ rw e (scan-short c rest e)
  | inr e ↦ elim (Bool-cases (is_plain b c)) [
    | inl p ↦ rw (e, p) (scan-plain c rest e (ground arith))
    | inr p ↦ elim (Bool-cases (ltb c 0x10000)) [
      | inl q ↦ rw (e, p, q) (scan-unicode_escape c rest (ground arith) scalar)
      | inr q ↦ rw (e, p, q) (rw append_assoc (scan-pair c rest (ground arith) (ground arith)))
    ]
  ]
]

-- What `dumps` wrote for a text without surrogates is read back to that text, up to the quote.
pub scan-escape :
    (b : Bool) (text rest : Text)
    → all_of is_scalar text ≡ true
    → scan (escape b text ++ b'"' ∷ rest) (among none) ≡ some (text, rest)
unfolding escape
scan-escape b [] rest h = unfold scan in refl
scan-escape b (c ∷ text) rest h =
    rw
      (
        append_assoc,
        scan-escape_char b c (escape b text ++ b'"' ∷ rest) (ground arith),
        scan-escape b text rest (ground arith),
      )
      refl
