-- ===== src/Json/Shorter.antt =====
-- Every reader of `json.loads` that succeeds leaves less text than it was given.
use cypher_syntax.Py.Value.{Value, Text}
use cypher_syntax.Py.Text.{ascii}
use cypher_syntax.Json.Scan.{Move, fails, ends, goes, Place, move, put, go_on, scan, among}
use cypher_syntax.Json.Numbers.{
  span_digits, whole_part, with_digits, fraction_part, exponent_part, after_whole, read_number,
}
use cypher_syntax.Json.Parse.{
  skip_blanks, strip_prefix, names, first_name, minus_infinity, negative_number, expect, read_key,
}
use cypher_syntax.Json.Written.{bind-eq-some, some-injective}
use cypher_syntax.Prelude.{
  ℕ, suc, ◌+◌, ◌≤◌, ◌<◌, ◌≡◌, refl, ap, Bool, true, false, Option, none, some, List, [], ◌∷◌, arith,
  length,
}

pub length-skip_blanks : (t : Text) → length (skip_blanks t) ≤ length t
unfolding skip_blanks
length-skip_blanks [] = omega arith
length-skip_blanks (c ∷ t) = ground (arith, length-skip_blanks t)

pub strip_prefix_shorter :
    (prefix t rest : Text)
    → strip_prefix prefix t ≡ some rest
    → length rest + length prefix ≤ length t
unfolding strip_prefix
strip_prefix_shorter [] t rest h = ground (arith, h)
strip_prefix_shorter (p ∷ prefix) [] rest h = absurd (cc)
strip_prefix_shorter (p ∷ prefix) (c ∷ t) rest h =
    ground (arith, strip_prefix_shorter prefix t rest)

pub expect_shorter : (c : ℕ) (t rest : Text) → expect c t ≡ some rest → length rest < length t
expect_shorter c t rest h =
    omega (arith, strip_prefix_shorter (c ∷ []) (skip_blanks t) rest h, length-skip_blanks t)

put-eq-some :
    (out : Text) (o : Option (Text × Text)) (text rest : Text)
    → put out o ≡ some (text, rest)
    → (u : Text) × (o ≡ some (u, rest))
put-eq-some out none text rest h = absurd (cc)
put-eq-some out (some (u, r)) text rest h =
    (u, ap (λ (x : Text). some (u, x)) (ap (λ (p : Text × Text). p.1) (some-injective h)))

moved_shorter :
    (m : Move) (t : Text) (next : Place → Option (Text × Text)) (text rest : Text)
    → ((place : Place) (u r : Text) → next place ≡ some (u, r) → length r < length t)
    → go_on m t next ≡ some (text, rest)
    → length rest < suc (length t)
moved_shorter fails t next text rest shorter e = absurd (cc)
moved_shorter (ends out) t next text rest shorter e =
    let same = ap (λ (p : Text × Text). length p.1) (some-injective e) in omega (arith, same)
moved_shorter (goes place out) t next text rest shorter e =
    let (u, k) = put-eq-some out (next place) text rest e in omega (arith, shorter place u rest k)

pub scan_shorter :
    (t : Text) (place : Place) (text rest : Text)
    → scan t place ≡ some (text, rest)
    → length rest < length t
unfolding scan
scan_shorter [] place text rest h = absurd (cc)
scan_shorter (c ∷ t) place text rest h =
    moved_shorter (move place c) t (scan t) text rest (λ p u r k. scan_shorter t p u r k) h

length-span_digits : (t : Text) → length (span_digits t).1 ≤ length t
unfolding span_digits
length-span_digits [] = omega arith
length-span_digits (c ∷ t) = ground (arith, length-span_digits t)

whole_part_shorter :
    (t whole rest : Text) → whole_part t ≡ some (whole, rest) → length rest < length t
unfolding whole_part
whole_part_shorter [] whole rest h = absurd (cc)
whole_part_shorter (c ∷ t) whole rest h = ground (arith, length-span_digits t, h)

length-with_digits :
    (mark whole : Text) (p : Text × Text)
    → length p.1 ≤ length whole
    → length (with_digits mark whole p).1 ≤ length whole
length-with_digits mark whole ([], rest) h = omega arith
length-with_digits mark whole (d ∷ front, rest) h = h

length-fraction_part : (t : Text) → length (fraction_part t).1 ≤ length t
unfolding fraction_part
length-fraction_part [] = omega arith
length-fraction_part (c ∷ t) =
    ground (arith, length-with_digits (c ∷ []) (c ∷ t) (span_digits t), length-span_digits t)

length-exponent_part : (t : Text) → length (exponent_part t).1 ≤ length t
unfolding exponent_part
length-exponent_part [] = omega arith
length-exponent_part (c ∷ []) = ground arith
length-exponent_part (c ∷ d ∷ t) = ground (
  arith,
  length-with_digits (c ∷ d ∷ []) (c ∷ d ∷ t) (span_digits t),
  length-with_digits (c ∷ []) (c ∷ d ∷ t) (span_digits (d ∷ t)),
  length-span_digits t,
  length-span_digits (d ∷ t),
)

after_whole_shorter :
    (negative : Bool) (o : Option (Text × Text)) (t rest : Text) (v : Value)
    → ((w r : Text) → o ≡ some (w, r) → length r < length t)
    → after_whole negative o ≡ some (v, rest)
    → length rest < length t
after_whole_shorter negative none t rest v h e = absurd (cc)
after_whole_shorter negative (some (w, r)) t rest v h e =
    let same = ap (λ (p : Value × Text). length p.1) (some-injective e) in
    omega
      (arith, same, h w r refl, length-fraction_part r, length-exponent_part (fraction_part r).1)

pub read_number_shorter :
    (negative : Bool) (t rest : Text) (v : Value)
    → read_number negative t ≡ some (v, rest)
    → length rest < length t
unfolding read_number
read_number_shorter negative t rest v h =
    after_whole_shorter negative (whole_part t) t rest v (λ w r e. whole_part_shorter t w r e) h

-- every name has a character
abbrev Spelled : List (Text × Value) → Type 0
Spelled [] = Unit
Spelled ((name, value) ∷ more) = (0 < length name) × Spelled more

named_shorter :
    (o : Option Text) (name t rest : Text) (value v : Value) (other : Option (Value × Text))
    → 0 < length name
    → ((r : Text) → o ≡ some r → length r + length name ≤ length t)
    → (other ≡ some (v, rest) → length rest < length t)
    → elim o as (λ x. Option (Value × Text)) [ some r ↦ some (value, r) | none ↦ other ]
      ≡ some (v, rest)
    → length rest < length t
named_shorter none name t rest value v other s h h' e = h' e
named_shorter (some r) name t rest value v other s h h' e =
    let same = ap (λ (p : Value × Text). length p.1) (some-injective e) in
    omega (arith, same, h r refl, s)

first_name_shorter :
    (l : List (Text × Value)) (t rest : Text) (v : Value)
    → Spelled l
    → first_name l t ≡ some (v, rest)
    → length rest < length t
first_name_shorter [] t rest v s h = absurd (cc)
first_name_shorter ((name, value) ∷ more) t rest v (s, ss) h =
    named_shorter (strip_prefix name t) name t rest value v (first_name more t) s
      (strip_prefix_shorter name t) (first_name_shorter more t rest v ss) h

minus_infinity_shorter :
    (constants : Bool) (t rest : Text) (v : Value)
    → minus_infinity constants t ≡ some (v, rest)
    → length rest < length t
minus_infinity_shorter constants t rest v h =
    let (r, e, k) = bind-eq-some (strip_prefix (ascii "Infinity") t) _ h in
    ground (arith, k, strip_prefix_shorter (ascii "Infinity") t r e)

pub negative_number_shorter :
    (constants : Bool) (t rest : Text) (v : Value)
    → negative_number constants t ≡ some (v, rest)
    → length rest < length t
negative_number_shorter constants t rest v h =
    ground (arith, h, read_number_shorter true t rest v, minus_infinity_shorter constants t rest v)

pub name_shorter :
    (constants : Bool) (t rest : Text) (v : Value)
    → first_name (names constants) t ≡ some (v, rest)
    → length rest < length t
name_shorter true t rest v h =
    first_name_shorter (names true) t rest v
      (omega arith, (omega arith, (omega arith, (omega arith, (omega arith, tt))))) h
name_shorter false t rest v h =
    first_name_shorter (names false) t rest v (omega arith, (omega arith, (omega arith, tt))) h

pub read_key_shorter : (t k rest : Text) → read_key t ≡ some (k, rest) → length rest < length t
unfolding read_key
read_key_shorter t k rest h =
    let (o, e, h1) = bind-eq-some (strip_prefix (b'"' ∷ []) t) _ h in
    let (p, e1, h2) = bind-eq-some (scan o (among none)) _ h1 in
    let (r, e2, h3) = bind-eq-some (expect b':' p.1) _ h2 in
    let same = ap (λ (p : Text × Text). length p.1) (some-injective h3) in
    omega (
      arith,
      strip_prefix_shorter (b'"' ∷ []) t o e,
      scan_shorter o (among none) p.0 p.1 e1,
      expect_shorter b':' p.1 r e2,
      length-skip_blanks r,
      same,
    )
