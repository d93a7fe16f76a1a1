-- ===== src/Json/Strings.antt =====
-- String literals of JSON as `json.dumps` writes them, with `ensure_ascii` on or off.
use cypher_syntax.Py.Value.{Text}
use cypher_syntax.Prelude.{
  ℕ, ◌+◌, ◌-◌, ◌/◌, ◌%◌, Bool, ◌&&◌, ◌||◌, [], ◌∷◌, ◌++◌, ltb, leb, ◌==◌, if◌then◌else◌,
}

-- a hexadecimal digit, in lower case
unfoldable pub hex_digit : ℕ → ℕ
hex_digit d = if ltb d 10 then b'0' + d else b'a' + (d - 10)

-- `\uXXXX`
abbrev pub unicode_escape : ℕ → Text
unicode_escape c =
    b'\\'
    ∷ b'u'
    ∷ hex_digit (c / 4096)
    ∷ hex_digit (c / 256 % 16)
    ∷ hex_digit (c / 16 % 16)
    ∷ hex_digit (c % 16)
    ∷ []

abbrev pub is_short_escape : ℕ → Bool
is_short_escape c = c == b'"' || c == b'\\' || c == 10 || c == 13 || c == 9 || c == 12 || c == 8

-- the letter of a short escape
abbrev pub short_letter : ℕ → ℕ
short_letter c =
    if c == 10
    then b'n'
    else if c == 13
    then b'r'
    else if c == 9
    then b't'
    else if c == 12
    then b'f'
    else if c == 8
    then b'b'
    else c

-- a character that stands for itself
abbrev pub is_plain : Bool → ℕ → Bool
is_plain ensure_ascii c = if ensure_ascii then leb 32 c && leb c 126 else leb 32 c

-- `py_encode_basestring_ascii` and `py_encode_basestring`
unfoldable pub escape_char : Bool → ℕ → Text
escape_char ensure_ascii c =
    if is_short_escape c
    then b'\\' ∷ short_letter c ∷ []
    else if is_plain ensure_ascii c
    then c ∷ []
    else if ltb c 0x10000
    then unicode_escape c
    else unicode_escape (0xd800 + (c - 0x10000) / 1024)
      ++ unicode_escape (0xdc00 + (c - 0x10000) % 1024)

unfoldable pub escape : Bool → Text → Text
escape ensure_ascii [] = []
escape ensure_ascii (c ∷ text) = escape_char ensure_ascii c ++ escape ensure_ascii text

abbrev pub quoted : Bool → Text → Text
quoted ensure_ascii text = b'"' ∷ (escape ensure_ascii text ++ b'"' ∷ [])
