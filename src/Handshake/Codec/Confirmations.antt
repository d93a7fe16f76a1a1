-- ===== src/Handshake/Codec/Confirmations.antt =====
-- That a confirmation of src/cyphersyntax/handshake.py is read back from its bytes, and from no others.
use cypher_syntax.Py.Result.{require, ok, value_error, bind-eq-ok}
use cypher_syntax.Py.Value.{int, str, bytes, object, Text, Bytes}
use cypher_syntax.Py.Text.{ascii}
use cypher_syntax.Py.Hex.{hex, AreBytes, hex-all_scalar}
use cypher_syntax.Names.{IsName, name_clean}
use cypher_syntax.Json.Parse.{distinct_keys}
use cypher_syntax.Json.Dump.{Member, text, number, dumps, object_text, fields_of}
use cypher_syntax.Handshake.Fields.{
  is_supported_suite, validate_version, validate_suite, validate_bytes, validate_participants,
}
use cypher_syntax.Handshake.Messages.{HandshakeConfirmation, make_confirmation}
use cypher_syntax.Handshake.Validity.{validate_suite_sound, validate_participants_sound}
use cypher_syntax.Handshake.Codec.{
  confirmation_fields, expected_object, confirmation_members, confirmation_to_bytes,
  construct_confirmation, confirmation_from_bytes,
}
use cypher_syntax.Handshake.Codec.Reading.{
  supported_clean, own_bytes, decode_hex-hex, AreExpected, read_message_canonical,
  read_message_back,
}
use cypher_syntax.Prelude.{
  ℕ, ◌≡◌, refl, ap, ◌↔◌, Bool, true, false, not, List, [], ◌∷◌, pos, length, list_eq,
}

-- the members as `sort_keys` orders them
abbrev ordered_confirmation : HandshakeConfirmation → List (Text × Member)
ordered_confirmation n =
    (ascii "initiator", text n.initiator)
    ∷ (ascii "initiator_ephemeral_public_key", text (hex n.initiator_ephemeral_public_key))
    ∷ (ascii "initiator_key_confirmation", text (hex n.initiator_key_confirmation))
    ∷ (ascii "kind", text (ascii "confirmation"))
    ∷ (ascii "responder", text n.responder)
    ∷ (ascii "responder_ephemeral_public_key", text (hex n.responder_ephemeral_public_key))
    ∷ (ascii "signature", text (hex n.signature))
    ∷ (ascii "suite", text n.suite)
    ∷ (ascii "v", number (pos n.version))
    ∷ []

dumps-confirmation :
    (n : HandshakeConfirmation)
    → dumps false (confirmation_members n) ≡ object_text false (ordered_confirmation n)
unfolding dumps
dumps-confirmation n = refl

distinct-confirmation :
    (n : HandshakeConfirmation) → distinct_keys (fields_of (ordered_confirmation n)) ≡ true
unfolding distinct_keys
distinct-confirmation n = refl

accepted-confirmation :
    (n : HandshakeConfirmation)
    → expected_object
        (ascii "confirmation")
        confirmation_fields
        (object (fields_of (ordered_confirmation n)))
      ≡ ok (fields_of (ordered_confirmation n))
unfolding expected_object
accepted-confirmation n = refl

module _ (printable : ℕ → Bool) where
  -- the constructor, called on the message's own fields, accepts them
  abbrev pub IsConfirmation : HandshakeConfirmation → Type 0
  IsConfirmation n =
      make_confirmation printable (int (pos n.version)) (str n.suite) (str n.initiator)
        (str n.responder) (bytes n.initiator_ephemeral_public_key)
        (bytes n.responder_ephemeral_public_key) (bytes n.initiator_key_confirmation)
        (bytes n.signature)
      ≡ ok n

  -- what the constructor has tested
  record IsFit (n : HandshakeConfirmation) : Type 0 where
    supported : is_supported_suite n.suite ≡ true
    initiator_name : IsName printable n.initiator
    responder_name : IsName printable n.responder
    initiator_length : length n.initiator_ephemeral_public_key ≡ 32
    responder_length : length n.responder_ephemeral_public_key ≡ 32
    confirmation_length : length n.initiator_key_confirmation ≡ 32
    signature_length : length n.signature ≡ 64

  own_suite : (s t : Text) → validate_suite (str s) ≡ ok t → is_supported_suite s ≡ true
  own_suite s t h =
      let (e, supported) = validate_suite_sound (str s) t h in
      let same : s ≡ t = cc e in rw same supported

  own_names :
      (a b : Text) (p : Text × Text)
      → validate_participants printable (str a) (str b) ≡ ok p
      → IsName printable a × IsName printable b
  own_names a b p h =
      let (e, f, x, y, _) = validate_participants_sound printable (str a) (str b) p.0 p.1 h in
      let same_a : a ≡ p.0 = cc e in let same_b : b ≡ p.1 = cc f in (rw same_a x, rw same_b y)

  IsConfirmation-IsFit : (n : HandshakeConfirmation) → IsConfirmation n → IsFit n
  unfolding make_confirmation
  IsConfirmation-IsFit n h =
      let (v, _, h1) = bind-eq-ok (validate_version (int (pos n.version))) _ h in
      let (t, hs, h2) = bind-eq-ok (validate_suite (str n.suite)) _ h1 in
      let (p, hp, h3) =
        bind-eq-ok (validate_participants printable (str n.initiator) (str n.responder)) _ h2 in
      let (i, hi, h4) =
        bind-eq-ok (validate_bytes (bytes n.initiator_ephemeral_public_key) 32) _ h3 in
      let (r, hr, h5) =
        bind-eq-ok (validate_bytes (bytes n.responder_ephemeral_public_key) 32) _ h4 in
      let (u, _, h6) = bind-eq-ok (require (not (list_eq r i)) value_error) _ h5 in
      let (c, hc, h7) = bind-eq-ok (validate_bytes (bytes n.initiator_key_confirmation) 32) _ h6 in
      let (s, hsig, _) = bind-eq-ok (validate_bytes (bytes n.signature) 64) _ h7 in
      let (a, b) = own_names n.initiator n.responder p hp in
      record {
        supported = own_suite n.suite t hs;
        initiator_name = a;
        responder_name = b;
        initiator_length = own_bytes n.initiator_ephemeral_public_key 32 hi;
        responder_length = own_bytes n.responder_ephemeral_public_key 32 hr;
        confirmation_length = own_bytes n.initiator_key_confirmation 32 hc;
        signature_length = own_bytes n.signature 64 hsig;
      }

  abbrev pub ConfirmationHoldsBytes : HandshakeConfirmation → Type 0
  ConfirmationHoldsBytes n =
      AreBytes n.initiator_ephemeral_public_key
      × AreBytes n.responder_ephemeral_public_key
      × AreBytes n.initiator_key_confirmation
      × AreBytes n.signature

  confirmation_expected :
      (n : HandshakeConfirmation)
      → IsFit n
      → ConfirmationHoldsBytes n
      → AreExpected (ascii "confirmation") confirmation_fields (ordered_confirmation n)
  confirmation_expected n t (ie, re, c, s) = record {
    clean = (
      refl,
      name_clean printable n.initiator t.initiator_name,
      (
        refl,
        hex-all_scalar n.initiator_ephemeral_public_key ie,
        (
          refl,
          hex-all_scalar n.initiator_key_confirmation c,
          (
            refl,
            refl,
            (
              refl,
              name_clean printable n.responder t.responder_name,
              (
                refl,
                hex-all_scalar n.responder_ephemeral_public_key re,
                (
                  refl,
                  hex-all_scalar n.signature s,
                  (refl, supported_clean n.suite t.supported, (refl, tt, tt)),
                ),
              ),
            ),
          ),
        ),
      ),
    );
    distinct = distinct-confirmation n;
    accepted = accepted-confirmation n;
  }

  construct_confirmation-ordered :
      (n : HandshakeConfirmation)
      → IsConfirmation n
      → ConfirmationHoldsBytes n
      → construct_confirmation printable (fields_of (ordered_confirmation n)) ≡ ok (ok n)
  unfolding construct_confirmation
  construct_confirmation-ordered n h (ie, re, c, s) =
      let t = IsConfirmation-IsFit n h in
      rw
        (
          decode_hex-hex n.initiator_ephemeral_public_key 32 ie t.initiator_length,
          decode_hex-hex n.responder_ephemeral_public_key 32 re t.responder_length,
          decode_hex-hex n.initiator_key_confirmation 32 c t.confirmation_length,
          decode_hex-hex n.signature 64 s t.signature_length,
        )
        (ap ok h)

  -- A confirmation that its constructor accepts, its byte strings holding bytes: `from_bytes` reads a
  -- byte string as this confirmation exactly if `to_bytes` of the confirmation returns that byte string.
  pub confirmation_from_bytes_iff_to_bytes :
      (n : HandshakeConfirmation) (encoding : Bytes)
      → IsConfirmation n
      → ConfirmationHoldsBytes n
      → (confirmation_from_bytes printable (bytes encoding) ≡ ok n)
        ↔ (confirmation_to_bytes n ≡ ok encoding)
  confirmation_from_bytes_iff_to_bytes n encoding h hb = (
    read_message_canonical (ascii "confirmation") confirmation_fields
        (construct_confirmation printable) confirmation_members encoding n,
    read_message_back (ascii "confirmation") confirmation_fields (construct_confirmation printable)
        confirmation_members encoding n (ordered_confirmation n) (dumps-confirmation n)
        (confirmation_expected n (IsConfirmation-IsFit n h) hb)
        (construct_confirmation-ordered n h hb),
  )
