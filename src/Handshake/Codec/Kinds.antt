-- ===== src/Handshake/Codec/Kinds.antt =====
-- That no byte string is a message of two kinds.
use mathlib.Core.Option
use cypher_syntax.Py.Result.{
  Result, ok, err, handshake_error, require, bind-eq-ok, require-eq-ok, ok-injective,
}
use cypher_syntax.Py.Value.{Value, Fields, null, str, bytes, object, Text, Bytes}
use cypher_syntax.Py.Text.{ascii}
use cypher_syntax.Py.Utf8.{decode}
use cypher_syntax.Json.Object.{has_all, lookup, parsed}
use cypher_syntax.Json.Parse.{loads, has_key}
use cypher_syntax.Handshake.Codec.{
  max_handshake_message_bytes, is_kind, expected_object, parse_message, read_message,
  offer_from_bytes, response_from_bytes, confirmation_from_bytes,
}
use cypher_syntax.Prelude.{
  ℕ, ◌+◌, ◌≤◌, ◌≡◌, refl, sym, ap, ◌∙◌, Bool, true, false, not, ◌||◌, List, ◌∷◌, arith, leb, ◌==◌,
  length, list_eq, list_eq_refl, eq_of_list_eq,
}

abbrev kind_of : Value → Value
kind_of (object fields) = lookup (ascii "kind") fields
kind_of _ = null

-- the object that a byte string holds
abbrev read_json : Bytes → Result Value
read_json encoding = parsed handshake_error (Option.bind (decode encoding) (λ t. loads false t))

expected_kind :
    (kind : Text) (names : List Text) (v : Value) (fields : Fields)
    → expected_object kind (ascii "kind" ∷ names) v ≡ ok fields
    → is_kind kind (kind_of v) ≡ true
unfolding expected_object
expected_kind kind names (object raw) fields h =
    let (_, k, h1) =
      bind-eq-ok
        (require (not (has_key (ascii "kind") raw) || is_kind kind (lookup (ascii "kind") raw))
          handshake_error)
        _ h in
    let (_, k', h2) =
      bind-eq-ok (require (has_all (ascii "kind" ∷ names) raw) handshake_error) _ h1 in
    ground (
      arith,
      require-eq-ok (not (has_key (ascii "kind") raw) || is_kind kind (lookup (ascii "kind") raw))
          handshake_error k,
      require-eq-ok (has_all (ascii "kind" ∷ names) raw) handshake_error k',
    )
expected_kind kind names _ fields h = absurd (cc)

read_kind :
    {M : Type 0} (encoding : Bytes) (kind : Text) (names : List Text)
    (construct : Fields → Result (Result M)) (encode : M → Result Bytes) (m : M)
    → read_message (bytes encoding) kind (ascii "kind" ∷ names) construct encode ≡ ok m
    → (v : Value) × (read_json encoding ≡ ok v) × (is_kind kind (kind_of v) ≡ true)
unfolding read_message parse_message
read_kind encoding kind names construct encode m h =
    let (fields, e, _) =
      bind-eq-ok (parse_message (bytes encoding) kind (ascii "kind" ∷ names)) _ h in
    let (_, _, h1) = bind-eq-ok (require (not (length encoding == 0)) handshake_error) _ e in
    let (_, _, h2) =
      bind-eq-ok (require (leb (length encoding) max_handshake_message_bytes) handshake_error) _
        h1 in
    let (v, k, h3) = bind-eq-ok (read_json encoding) _ h2 in
    (v, k, expected_kind kind names v fields h3)

is_kind_unique : (s t : Text) (v : Value) → is_kind s v ≡ true → is_kind t v ≡ true → s ≡ t
is_kind_unique s t (str u) h k = sym (eq_of_list_eq u s h) ∙ eq_of_list_eq u t k
is_kind_unique s t _ h k = absurd (cc)

same_kind :
    {M N : Type 0} (encoding : Bytes) (s t : Text) (names names' : List Text)
    (construct : Fields → Result (Result M)) (encode : M → Result Bytes) (m : M)
    (construct' : Fields → Result (Result N)) (encode' : N → Result Bytes) (n : N)
    → read_message (bytes encoding) s (ascii "kind" ∷ names) construct encode ≡ ok m
    → read_message (bytes encoding) t (ascii "kind" ∷ names') construct' encode' ≡ ok n
    → s ≡ t
same_kind encoding s t names names' construct encode m construct' encode' n h k =
    let (v, e, x) = read_kind encoding s names construct encode m h in
    let (w, f, y) = read_kind encoding t names' construct' encode' n k in
    let same : v ≡ w = ok-injective (sym e ∙ f) in
    is_kind_unique s t (kind_of w) (ap (λ v. is_kind s (kind_of v)) (sym same) ∙ x) y

abbrev pub accepted {ℓ} : {A : Type ℓ} → Result A → ℕ
accepted (ok a) = 1
accepted (err e) = 0

at_most_one :
    {A B C : Type 0} (a : Result A) (b : Result B) (c : Result C)
    → ((x : A) (y : B) → a ≡ ok x → b ≡ ok y → ⊥)
    → ((x : A) (z : C) → a ≡ ok x → c ≡ ok z → ⊥)
    → ((y : B) (z : C) → b ≡ ok y → c ≡ ok z → ⊥)
    → accepted a + accepted b + accepted c ≤ 1
at_most_one (ok x) (ok y) c ab ac bc = absurd (ab x y refl refl)
at_most_one (ok x) (err e) (ok z) ab ac bc = absurd (ac x z refl refl)
at_most_one (ok x) (err e) (err e') ab ac bc = omega arith
at_most_one (err e) (ok y) (ok z) ab ac bc = absurd (bc y z refl refl)
at_most_one (err e) (ok y) (err e') ab ac bc = omega arith
at_most_one (err e) (err e') (ok z) ab ac bc = omega arith
at_most_one (err e) (err e') (err e'') ab ac bc = omega arith

different : (s t : Text) → list_eq s t ≡ false → s ≡ t → ⊥
different s t h e = absurd (cc (sym (list_eq_refl t) ∙ ap (λ u. list_eq u t) (sym e), h))

-- Whatever is handed to the three `from_bytes`, at most one of them accepts it.
pub one_kind :
    (printable : ℕ → Bool) (input : Value)
    → accepted (offer_from_bytes printable input)
        + accepted (response_from_bytes printable input)
        + accepted (confirmation_from_bytes printable input)
      ≤ 1
unfolding read_message
one_kind printable (bytes encoding) =
    at_most_one (offer_from_bytes printable (bytes encoding))
      (response_from_bytes printable (bytes encoding))
      (confirmation_from_bytes printable (bytes encoding))
      (λ x y h k.
        different (ascii "offer") (ascii "response") refl
          (same_kind encoding _ _ _ _ _ _ x _ _ y h k))
      (λ x z h k.
        different (ascii "offer") (ascii "confirmation") refl
          (same_kind encoding _ _ _ _ _ _ x _ _ z h k))
      (λ y z h k.
        different (ascii "response") (ascii "confirmation") refl
          (same_kind encoding _ _ _ _ _ _ y _ _ z h k))
one_kind printable _ = omega arith
