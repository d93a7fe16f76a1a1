-- ===== src/Wire/Roundtrip.antt =====
-- That the envelope of src/cyphersyntax/wire.py is read back from its bytes, and from no others.
use mathlib.Core.Option
use mathlib.Core.Path.{subst}
use cypher_syntax.Py.Result.{ok, envelope_error, require, bind-eq-ok, require-eq-ok, ok-injective}
use cypher_syntax.Py.Value.{bytes, object, Text, Bytes}
use cypher_syntax.Py.Text.{ascii, utf8, decode-utf8}
use cypher_syntax.Py.Utf8.{decode}
use cypher_syntax.Py.Hex.{hex-all_scalar, HoldsBytes, hex, AreBytes}
use cypher_syntax.Protocol.{max_envelope_bytes}
use cypher_syntax.Names.{name_clean}
use cypher_syntax.Json.Object.{parsed}
use cypher_syntax.Json.Parse.{loads, distinct_keys}
use cypher_syntax.Json.Dump.{Member, text, number, dumps, object_text, fields_of}
use cypher_syntax.Json.Roundtrip.{AreClean, loads-object_text}
use cypher_syntax.Wire.{
  MessageEnvelope, Metadata, envelope_members, validate_complete, to_bytes, from_fields, from_bytes,
  exact_fields,
}
use cypher_syntax.Wire.Validity.{
  built, IsComplete, validate_complete-IsComplete, decode_ciphertext-hex, suite_clean,
}
use cypher_syntax.Prelude.{
  ℕ, ◌≡◌, refl, sym, ap, ◌∙◌, ◌↔◌, Bool, true, false, not, some, List, [], ◌∷◌, arith, leb, ◌==◌,
  pos, length, list_eq, list_eq_refl, eq_of_list_eq,
}

-- the members as `sort_keys` orders them
abbrev ordered : Metadata → Bytes → List (Text × Member)
ordered m c =
    (ascii "ciphertext", text (hex c))
    ∷ (ascii "recipient", text m.recipient)
    ∷ (ascii "sender", text m.sender)
    ∷ (ascii "sequence", number (pos m.sequence))
    ∷ (ascii "suite", text m.suite)
    ∷ (ascii "v", number (pos m.version))
    ∷ []

dumps-envelope_members :
    (m : Metadata) (c : Bytes) → dumps true (envelope_members m c) ≡ object_text true (ordered m c)
unfolding dumps
dumps-envelope_members m c = refl

ordered-distinct : (m : Metadata) (c : Bytes) → distinct_keys (fields_of (ordered m c)) ≡ true
unfolding distinct_keys
ordered-distinct m c = refl

exact_fields-ordered :
    (m : Metadata) (c : Bytes)
    → exact_fields (object (fields_of (ordered m c))) ≡ ok (fields_of (ordered m c))
unfolding exact_fields
exact_fields-ordered m c = refl

some_of_empty : {t : Text} {c : ℕ} → decode [] ≡ some (c ∷ t) → ⊥
some_of_empty h = absurd (unfold decode in cc h)

module _ (printable : ℕ → Bool) where
  ordered_clean :
      (e : MessageEnvelope) (m : Metadata) (c : Bytes)
      → IsComplete printable e m c
      → AreBytes c
      → AreClean (ordered m c)
  ordered_clean e m c h hc = (
    refl,
    hex-all_scalar c hc,
    (
      refl,
      name_clean printable m.recipient h.recipient_IsName,
      (
        refl,
        name_clean printable m.sender h.sender_IsName,
        (refl, tt, (refl, suite_clean m.suite h.suite_ascii, (refl, tt, tt))),
      ),
    ),
  )

  from_fields-ordered :
      (e : MessageEnvelope) (m : Metadata) (c : Bytes)
      → IsComplete printable e m c
      → AreBytes c
      → from_fields printable (fields_of (ordered m c)) ≡ ok (built m c)
  unfolding from_fields
  from_fields-ordered e m c h hc =
      rw
        (
          h.version_ok,
          h.suite_ok,
          h.sender_ok,
          h.recipient_ok,
          decode_ciphertext-hex c hc h.nonempty,
        )
        refl

  -- what `to_bytes` has returned
  record Encodes (m : Metadata) (c : Bytes) (encoding : Bytes) : Type 0 where
    spelled : utf8 (object_text true (ordered m c)) ≡ ok encoding
    fits : leb (length encoding) max_envelope_bytes ≡ true

  to_bytes_sound :
      (e : MessageEnvelope) (encoding : Bytes)
      → to_bytes printable e ≡ ok encoding
      → (m : Metadata) × (c : Bytes) × IsComplete printable e m c × Encodes m c encoding
  unfolding to_bytes
  to_bytes_sound e encoding h =
      let (p, hp, h1) = bind-eq-ok (validate_complete printable e) _ h in
      let (t, ht, h2) = bind-eq-ok (utf8 (dumps true (envelope_members p.0 p.1))) _ h1 in
      let (u, hl, h3) =
        bind-eq-ok (require (leb (length t) max_envelope_bytes) envelope_error) _ h2 in
      let short = require-eq-ok (leb (length t) max_envelope_bytes) envelope_error hl in
      let same = ok-injective h3 in
      (
        p.0,
        p.1,
        validate_complete-IsComplete printable e p.0 p.1 hp,
        subst (Encodes p.0 p.1) same (record {
          spelled = sym (ap utf8 (dumps-envelope_members p.0 p.1)) ∙ ht;
          fits = short;
        }),
      )

  to_bytes_complete :
      (m : Metadata) (c : Bytes) (encoding : Bytes)
      → validate_complete printable (built m c) ≡ ok (m, c)
      → Encodes m c encoding
      → to_bytes printable (built m c) ≡ ok encoding
  unfolding to_bytes
  to_bytes_complete m c encoding passes h =
      rw (passes, dumps-envelope_members m c, h.spelled, h.fits) refl

  loads_of_encoding :
      (m : Metadata) (c : Bytes) (encoding : Bytes)
      → AreClean (ordered m c)
      → Encodes m c encoding
      → Option.bind (decode encoding) (λ t. loads true t) ≡ some (object (fields_of (ordered m c)))
  unfolding Option.bind
  loads_of_encoding m c encoding clean h =
      rw (decode-utf8 (object_text true (ordered m c)) encoding h.spelled)
        (loads-object_text true true (ordered m c) clean (ordered-distinct m c))

  nonempty_of :
      (m : Metadata) (c : Bytes) (encoding : Bytes)
      → Encodes m c encoding
      → (length encoding == 0) ≡ false
  nonempty_of m c [] h =
      absurd (some_of_empty (decode-utf8 (object_text true (ordered m c)) [] h.spelled))
  nonempty_of m c (b ∷ bs) h = ground arith

  from_bytes-built :
      (e : MessageEnvelope) (m : Metadata) (c : Bytes) (encoding : Bytes)
      → IsComplete printable e m c
      → AreBytes c
      → Encodes m c encoding
      → from_bytes printable (bytes encoding) ≡ ok (built m c)
  unfolding from_bytes
  from_bytes-built e m c encoding h hc k =
      rw
        (
          nonempty_of m c encoding k,
          k.fits,
          loads_of_encoding m c encoding (ordered_clean e m c h hc) k,
          exact_fields-ordered m c,
          from_fields-ordered e m c h hc,
          h.passes,
          to_bytes_complete m c encoding h.passes k,
          list_eq_refl encoding,
        )
        refl

  canonical :
      (encoding : Bytes) (e : MessageEnvelope)
      → from_bytes printable (bytes encoding) ≡ ok e
      → to_bytes printable e ≡ ok encoding
  unfolding from_bytes
  canonical encoding e h =
      let (u1, _, h1) = bind-eq-ok (require (not (length encoding == 0)) envelope_error) _ h in
      let (u2, _, h2) =
        bind-eq-ok (require (leb (length encoding) max_envelope_bytes) envelope_error) _ h1 in
      let (raw, _, h3) =
        bind-eq-ok (parsed envelope_error (Option.bind (decode encoding) (λ t. loads true t))) _
          h2 in
      let (fields, _, h4) = bind-eq-ok (exact_fields raw) _ h3 in
      let (found, _, h5) = bind-eq-ok (from_fields printable fields) _ h4 in
      let (p, _, h6) = bind-eq-ok (validate_complete printable found) _ h5 in
      let (again, made, h7) = bind-eq-ok (to_bytes printable found) _ h6 in
      let (u3, k, h8) = bind-eq-ok (require (list_eq again encoding) envelope_error) _ h7 in
      let same =
        eq_of_list_eq again encoding (require-eq-ok (list_eq again encoding) envelope_error k) in
      subst (λ x. to_bytes printable x ≡ ok encoding) (ok-injective h8) (made ∙ ap ok same)

  read_back :
      (e : MessageEnvelope) (encoding : Bytes)
      → HoldsBytes e.ciphertext
      → to_bytes printable e ≡ ok encoding
      → from_bytes printable (bytes encoding) ≡ ok e
  read_back e encoding hb h =
      let (m, c, k, spelled) = to_bytes_sound e encoding h in
      from_bytes-built e m c encoding k (subst (λ x. HoldsBytes x.ciphertext) k.same hb) spelled
      ∙ ap ok (sym k.same)

  -- For an envelope whose ciphertext, where it is a byte string, holds bytes below 256: `from_bytes`
  -- reads a byte string as this envelope exactly if `to_bytes` of the envelope returns that byte
  -- string. So nothing is lost on the way, and no second spelling of an envelope is accepted.
  pub from_bytes_iff_to_bytes :
      (e : MessageEnvelope) (encoding : Bytes)
      → HoldsBytes e.ciphertext
      → (from_bytes printable (bytes encoding) ≡ ok e) ↔ (to_bytes printable e ≡ ok encoding)
  from_bytes_iff_to_bytes e encoding h = (canonical encoding e, read_back e encoding h)
