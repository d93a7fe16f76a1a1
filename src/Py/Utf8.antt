-- ===== src/Py/Utf8.antt =====
-- `str.encode("utf-8")` and `bytes.decode("utf-8")`, both strict.
use mathlib.Core.Option
use cypher_syntax.Py.Value.{Bytes, Text}
use cypher_syntax.Prelude.{
  ℕ, zero, suc, ◌+◌, ◌-◌, ◌*◌, ◌/◌, ◌%◌, ◌≡◌, refl, Bool, true, not, ◌&&◌, ◌||◌, Option, none, some,
  [], ◌∷◌, ◌++◌, arith, ltb, leb, if◌then◌else◌,
}

-- `all(test(c) for c in text)`
abbrev pub all_of : (ℕ → Bool) → Text → Bool
all_of test [] = true
all_of test (c ∷ text) = test c && all_of test text

-- A surrogate has no encoding.
abbrev pub is_scalar : ℕ → Bool
is_scalar c = ltb c 0xd800 || leb 0xe000 c && ltb c 0x110000

abbrev encode_char : ℕ → Option Bytes
encode_char c =
    if not (is_scalar c)
    then none
    else if ltb c 0x80
    then some (c ∷ [])
    else if ltb c 0x800
    then some ((0xc0 + c / 64) ∷ (0x80 + c % 64) ∷ [])
    else if ltb c 0x10000
    then some ((0xe0 + c / 4096) ∷ (0x80 + c / 64 % 64) ∷ (0x80 + c % 64) ∷ [])
    else some
        ((0xf0 + c / 262144) ∷ (0x80 + c / 4096 % 64) ∷ (0x80 + c / 64 % 64) ∷ (0x80 + c % 64) ∷ [])

abbrev append_both : Option Bytes → Option Bytes → Option Bytes
append_both none _ = none
append_both (some xs) none = none
append_both (some xs) (some ys) = some (xs ++ ys)

unfoldable pub encode : Text → Option Bytes
encode [] = some []
encode (c ∷ text) = append_both (encode_char c) (encode text)

-- between two characters, or inside one: how many bytes are missing after the next, the least
-- character of this length, and the bits read so far
pub data Position : Type 0 where
  start : Position
  inside : ℕ → ℕ → ℕ → Position

abbrev continue : ℕ → ℕ → ℕ → Option (Position × Text)
continue zero least c = if leb least c && is_scalar c then some (start, c ∷ []) else none
continue (suc more) least bits = some (inside more least bits, [])

-- the next position, and the character that the byte completes, if any
abbrev read_byte : Position → ℕ → Option (Position × Text)
read_byte start b =
    if ltb b 0x80
    then some (start, b ∷ [])
    else if ltb b 0xc0
    then none
    else if ltb b 0xe0
    then some (inside 0 0x80 (b - 0xc0), [])
    else if ltb b 0xf0
    then some (inside 1 0x800 (b - 0xe0), [])
    else if ltb b 0xf8
    then some (inside 2 0x10000 (b - 0xf0), [])
    else none
read_byte (inside more least bits) b =
    if ltb b 0x80 || leb 0xc0 b then none else continue more least (bits * 64 + (b - 0x80))

abbrev read_on : Option (Position × Text) → (Position → Option Text) → Option Text
read_on none rest = none
read_on (some (p, out)) rest = Option.map (λ text. out ++ text) (rest p)

read : Bytes → Position → Option Text
read [] start = some []
read [] (inside _ _ _) = none
read (b ∷ bs) p = read_on (read_byte p b) (read bs)

unfoldable pub decode : Bytes → Option Text
unfolding read
decode bs = read bs start

read-encode_char :
    (c : ℕ) (bs rest : Bytes)
    → encode_char c ≡ some bs
    → read (bs ++ rest) start ≡ Option.map (λ text. c ∷ text) (read rest start)
unfolding read
read-encode_char c bs rest h = ground arith

append_both-eq-some :
    (x y : Option Bytes) (bs : Bytes)
    → append_both x y ≡ some bs
    → (first : Bytes) × (rest : Bytes) × (x ≡ some first) × (y ≡ some rest) × (bs ≡ first ++ rest)
append_both-eq-some none y bs h = absurd (cc)
append_both-eq-some (some xs) none bs h = absurd (cc)
append_both-eq-some (some xs) (some ys) bs h = (xs, ys, refl, refl, cc)

-- Every text that has an encoding is decoded to itself.
pub decode-encode : (text : Text) (bs : Bytes) → encode text ≡ some bs → decode bs ≡ some text
unfolding encode decode
decode-encode [] bs h = ground arith
decode-encode (c ∷ text) bs h =
    let (first, rest, p, q, e) = append_both-eq-some (encode_char c) (encode text) bs h in
    rw e (rw (read-encode_char c first rest p, decode-encode text rest q) refl)

pub encode-injective : (s t : Text) (bs : Bytes) → encode s ≡ some bs → encode t ≡ some bs → s ≡ t
encode-injective s t bs hs ht = cc (decode-encode s bs hs, decode-encode t bs ht)

-- a text that has an encoding has no surrogates
pub encode-all_of :
    (text : Text) (bs : Bytes) → encode text ≡ some bs → all_of is_scalar text ≡ true
unfolding encode
encode-all_of [] bs h = refl
encode-all_of (c ∷ text) bs h =
    let (first, rest, p, q, e) = append_both-eq-some (encode_char c) (encode text) bs h in
    ground (arith, encode-all_of text rest q)
