-- ===== src/Handshake/Codec/Reading.antt =====
-- What holds of the reader that the three messages share.
use mathlib.Core.Path.{subst}
use mathlib.Core.Option
use cypher_syntax.Py.Result.{
  Result, ok, handshake_error, require, bind-eq-ok, require-eq-ok, ok-injective,
}
use cypher_syntax.Py.Value.{Fields, str, bytes, object, Text, Bytes}
use cypher_syntax.Py.Text.{ascii, all_of, utf8, decode-utf8}
use cypher_syntax.Py.Utf8.{is_scalar, decode}
use cypher_syntax.Py.Hex.{hex, AreBytes, from_hex-hex, hex-all_digits, length-hex}
use cypher_syntax.Json.Parse.{distinct_keys}
use cypher_syntax.Json.Dump.{Member, dumps, object_text, fields_of}
use cypher_syntax.Json.Roundtrip.{AreClean, loads-object_text}
use cypher_syntax.Handshake.Fields.{is_supported_suite, validate_bytes}
use cypher_syntax.Handshake.Codec.{
  max_handshake_message_bytes, encode_message, expected_object, parse_message, decode_hex,
  as_handshake_error, verify_canonical, read_message,
}
use cypher_syntax.Prelude.{
  ℕ, ◌≡◌, refl, sym, ap, ◌∙◌, inl, inr, true, false, some, List, [], ◌∷◌, arith, leb, ◌==◌,
  Bool-cases, length, list_eq, list_eq_refl, eq_of_list_eq,
}

pub decode_hex-hex :
    (bs : Bytes) (n : ℕ) → AreBytes bs → length bs ≡ n → decode_hex (str (hex bs)) n ≡ ok bs
unfolding decode_hex
decode_hex-hex bs n h e = rw (length-hex bs, hex-all_digits bs h, from_hex-hex bs h) (ground arith)

pub supported_clean : (s : Text) → is_supported_suite s ≡ true → all_of is_scalar s ≡ true
supported_clean s h = elim (Bool-cases (list_eq s (ascii "AES_GCM_SIV"))) [
  | inl e ↦ rw (eq_of_list_eq s (ascii "AES_GCM_SIV") e) refl
  | inr e ↦
      let other : list_eq s (ascii "CHACHA20_POLY1305") ≡ true = rw e at h in
      rw (eq_of_list_eq s (ascii "CHACHA20_POLY1305") other) refl
]

pub own_bytes : (b : Bytes) (n : ℕ) {s : Bytes} → validate_bytes (bytes b) n ≡ ok s → length b ≡ n
unfolding validate_bytes
own_bytes b n h = ground arith

-- an encoding, and the text that it encodes
pub record Spells (members : List (Text × Member)) (encoding : Bytes) : Type 0 where
  pub spelled : utf8 (object_text false members) ≡ ok encoding
  pub fits : leb (length encoding) max_handshake_message_bytes ≡ true

pub encode_message_sound :
    (members ordered : List (Text × Member)) (encoding : Bytes)
    → dumps false members ≡ object_text false ordered
    → encode_message members ≡ ok encoding
    → Spells ordered encoding
unfolding encode_message
encode_message_sound members ordered encoding e h =
    let (t, ht, h1) = bind-eq-ok (utf8 (dumps false members)) _ h in
    let (u, hl, h2) =
      bind-eq-ok (require (leb (length t) max_handshake_message_bytes) handshake_error) _ h1 in
    subst (Spells ordered) (ok-injective h2) (record {
      spelled = ap utf8 (sym e) ∙ ht;
      fits = require-eq-ok (leb (length t) max_handshake_message_bytes) handshake_error hl;
    })

empty_no_text : {t : Text} {c : ℕ} → decode [] ≡ some (c ∷ t) → ⊥
empty_no_text h = absurd (unfold decode in cc h)

Spells-nonempty :
    (members : List (Text × Member)) (encoding : Bytes)
    → Spells members encoding
    → (length encoding == 0) ≡ false
Spells-nonempty members [] h =
    absurd (empty_no_text (decode-utf8 (object_text false members) [] h.spelled))
Spells-nonempty members (b ∷ bs) h = ground arith

-- what is known of the members of one kind of message, in their order
pub record AreExpected (kind : Text) (names : List Text) (ordered : List (Text × Member))
    : Type 0 where
  pub clean : AreClean ordered
  pub distinct : distinct_keys (fields_of ordered) ≡ true
  pub accepted : expected_object kind names (object (fields_of ordered)) ≡ ok (fields_of ordered)

parse_message-Spells :
    (kind : Text) (names : List Text) (ordered : List (Text × Member)) (encoding : Bytes)
    → AreExpected kind names ordered
    → Spells ordered encoding
    → parse_message (bytes encoding) kind names ≡ ok (fields_of ordered)
unfolding parse_message Option.bind
parse_message-Spells kind names ordered encoding x h =
    rw
      (
        Spells-nonempty ordered encoding h,
        h.fits,
        decode-utf8 (object_text false ordered) encoding h.spelled,
        loads-object_text false false ordered x.clean x.distinct,
        x.accepted,
      )
      refl

module _ {M : Type 0} (kind : Text) (names : List Text) (construct : Fields → Result (Result M))
    (members : M → List (Text × Member)) where
  -- what is read has the input for its encoding
  pub read_message_canonical :
      (encoding : Bytes) (m : M)
      → read_message (bytes encoding) kind names construct (λ x. encode_message (members x)) ≡ ok m
      → encode_message (members m) ≡ ok encoding
  unfolding read_message verify_canonical
  read_message_canonical encoding m h =
      let (raw, _, h1) = bind-eq-ok (parse_message (bytes encoding) kind names) _ h in
      let (made, _, h2) = bind-eq-ok (construct raw) _ h1 in
      let (found, _, h3) = bind-eq-ok (as_handshake_error made) _ h2 in
      let (again, e, h4) = bind-eq-ok (encode_message (members found)) _ h3 in
      let (u, k, h5) = bind-eq-ok (require (list_eq again encoding) handshake_error) _ h4 in
      let same =
        eq_of_list_eq again encoding (require-eq-ok (list_eq again encoding) handshake_error k) in
      subst (λ x. encode_message (members x) ≡ ok encoding) (ok-injective h5) (e ∙ ap ok same)

  pub read_message_back :
      (encoding : Bytes) (m : M) (ordered : List (Text × Member))
      → dumps false (members m) ≡ object_text false ordered
      → AreExpected kind names ordered
      → construct (fields_of ordered) ≡ ok (ok m)
      → encode_message (members m) ≡ ok encoding
      → read_message (bytes encoding) kind names construct (λ x. encode_message (members x)) ≡ ok m
  unfolding read_message verify_canonical
  read_message_back encoding m ordered e x made h =
      rw
        (
          parse_message-Spells kind names ordered encoding x
              (encode_message_sound (members m) ordered encoding e h),
          made,
          h,
          list_eq_refl encoding,
        )
        refl
