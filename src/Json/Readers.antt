-- ===== src/Json/Readers.antt =====
-- `loads` on each kind of value, in front of any text.
use mathlib.Core.Path.{subst}
use cypher_syntax.Py.Value.{Value, Items, int, bool, null, object, array, nil, cons, end, Text}
use cypher_syntax.Py.Text.{ascii}
use cypher_syntax.Json.Numbers.{int_text, Stops}
use cypher_syntax.Json.Parse.{◌>>=◌, skip_blanks, strip_prefix, expect, read_value, read_items}
use cypher_syntax.Json.Write.{bool_text}
use cypher_syntax.Json.Roundtrip.{read_value-decimal, read_value-negative}
use cypher_syntax.Prelude.{
  ℕ, suc, ◌≤◌, ◌<◌, ◌≡◌, refl, ap, ◌∙◌, Bool, true, false, Option, none, some, [], ◌∷◌, ◌++◌, arith,
  ℤ, pos, negsuc, length, length-append,
}

-- the text of a value, in another spelling
pub respelled :
    (constants : Bool) (fuel : ℕ) (v : Value) (rest : Text) {t u : Text}
    → u ≡ t
    → read_value constants (suc fuel) (u ++ rest) ≡ some (v, rest)
    → read_value constants (suc fuel) (t ++ rest) ≡ some (v, rest)
respelled constants fuel v rest e h =
    subst (λ t. read_value constants (suc fuel) (t ++ rest) ≡ some (v, rest)) e h

pub read_value-int :
    (constants : Bool) (fuel : ℕ) (z : ℤ) (rest : Text)
    → Stops rest
    → read_value constants (suc fuel) (int_text z ++ rest) ≡ some (int z, rest)
unfolding int_text
read_value-int constants fuel (pos n) rest s = read_value-decimal constants fuel n rest s
read_value-int constants fuel (negsuc n) rest s = read_value-negative constants fuel n rest s

pub read_value-bool :
    (constants : Bool) (fuel : ℕ) (b : Bool) (rest : Text)
    → read_value constants (suc fuel) (bool_text b ++ rest) ≡ some (bool b, rest)
unfolding read_value strip_prefix
read_value-bool constants fuel true rest = refl
read_value-bool constants fuel false rest = refl

pub read_value-null :
    (constants : Bool) (fuel : ℕ) (rest : Text)
    → read_value constants (suc fuel) (ascii "null" ++ rest) ≡ some (null, rest)
unfolding read_value strip_prefix
read_value-null constants fuel rest = refl

pub read_value-no_fields :
    (constants : Bool) (fuel : ℕ) (rest : Text)
    → read_value constants (suc fuel) (b'{' ∷ b'}' ∷ rest) ≡ some (object end, rest)
unfolding read_value strip_prefix skip_blanks
read_value-no_fields constants fuel rest = refl

pub read_value-no_items :
    (constants : Bool) (fuel : ℕ) (rest : Text)
    → read_value constants (suc fuel) (b'[' ∷ b']' ∷ rest) ≡ some (array nil, rest)
unfolding read_value strip_prefix skip_blanks
read_value-no_items constants fuel rest = refl

pub closed_length :
    (c d : ℕ) (u t : Text) (fuel : ℕ)
    → c ∷ (u ++ (d ∷ [])) ≡ t
    → length t ≤ suc fuel
    → length u < fuel
closed_length c d u t fuel e bound = omega (arith, ap length e, length-append u (d ∷ []), bound)

pub read_items-last :
    (constants : Bool) (fuel : ℕ) (input rest : Text) (v : Value)
    → read_value constants fuel input ≡ some (v, b']' ∷ rest)
    → read_items constants (suc fuel) input ≡ some (cons v nil, rest)
unfolding read_items skip_blanks
read_items-last constants fuel input rest v value = rw value refl

pub read_items-more :
    (constants : Bool) (fuel : ℕ) (input u rest : Text) (v : Value) (items : Items)
    → read_value constants fuel input ≡ some (v, b',' ∷ u)
    → read_items constants fuel (skip_blanks u) ≡ some (items, rest)
    → read_items constants (suc fuel) input ≡ some (cons v items, rest)
read_items-more constants fuel input u rest v items value more =
    unfold read_items skip_blanks in rw value (ap (λ o. o >>= λ m. some (cons v m.0, m.1)) more)

pub read_value-bracket :
    (constants : Bool) (fuel : ℕ) (t rest : Text) (items : Items)
    → expect b']' t ≡ none
    → skip_blanks t ≡ t
    → read_items constants fuel t ≡ some (items, rest)
    → read_value constants (suc fuel) (b'[' ∷ t) ≡ some (array items, rest)
unfolding read_value
read_value-bracket constants fuel t rest items none_closed kept items_read =
    ap
      (λ o. elim o as (λ x. Option (Value × Text)) [
        | some r ↦ some (array nil, r)
        | none ↦ read_items constants fuel (skip_blanks t) >>= λ p. some (array p.0, p.1)
      ])
      none_closed
    ∙ ap (λ u. read_items constants fuel u >>= λ p. some (array p.0, p.1)) kept
    ∙ ap (λ o. o >>= λ p. some (array p.0, p.1)) items_read
