-- ===== src/Handshake/Codec/Responses.antt =====
-- That a response of src/cyphersyntax/handshake.py is read back from its bytes, and from no others.
use cypher_syntax.Py.Result.{ok, bind-eq-ok}
use cypher_syntax.Py.Value.{int, str, bytes, object, Text, Bytes}
use cypher_syntax.Py.Text.{ascii}
use cypher_syntax.Py.Hex.{hex, AreBytes, hex-all_scalar}
use cypher_syntax.Names.{name_clean}
use cypher_syntax.Json.Parse.{distinct_keys}
use cypher_syntax.Json.Dump.{Member, text, number, dumps, object_text, fields_of}
use cypher_syntax.Handshake.Fields.{Terms, validate_bytes, validate_offer_fields}
use cypher_syntax.Handshake.Messages.{HandshakeResponse, make_response, respond}
use cypher_syntax.Handshake.Validity.{IsTerms}
use cypher_syntax.Handshake.Construct.{own_terms}
use cypher_syntax.Handshake.Codec.{
  response_fields, expected_object, response_members, response_to_bytes, construct_response,
  response_from_bytes,
}
use cypher_syntax.Handshake.Codec.Reading.{
  supported_clean, decode_hex-hex, AreExpected, read_message_canonical, read_message_back,
}
use cypher_syntax.Prelude.{
  ℕ, ◌≡◌, refl, ap, ◌↔◌, Bool, true, false, List, [], ◌∷◌, arith, pos, length,
}

-- the members as `sort_keys` orders them
abbrev ordered_response : HandshakeResponse → List (Text × Member)
ordered_response r =
    (ascii "initiator", text r.initiator)
    ∷ (ascii "initiator_ephemeral_public_key", text (hex r.initiator_ephemeral_public_key))
    ∷ (ascii "initiator_signing_public_key", text (hex r.initiator_signing_public_key))
    ∷ (ascii "kind", text (ascii "response"))
    ∷ (ascii "responder", text r.responder)
    ∷ (ascii "responder_ephemeral_public_key", text (hex r.responder_ephemeral_public_key))
    ∷ (ascii "responder_key_confirmation", text (hex r.responder_key_confirmation))
    ∷ (ascii "responder_signing_public_key", text (hex r.responder_signing_public_key))
    ∷ (ascii "signature", text (hex r.signature))
    ∷ (ascii "suite", text r.suite)
    ∷ (ascii "v", number (pos r.version))
    ∷ []

dumps-response :
    (r : HandshakeResponse)
    → dumps false (response_members r) ≡ object_text false (ordered_response r)
unfolding dumps
dumps-response r = refl

distinct-response : (r : HandshakeResponse) → distinct_keys (fields_of (ordered_response r)) ≡ true
unfolding distinct_keys
distinct-response r = refl

accepted-response :
    (r : HandshakeResponse)
    → expected_object (ascii "response") response_fields (object (fields_of (ordered_response r)))
      ≡ ok (fields_of (ordered_response r))
unfolding expected_object
accepted-response r = refl

-- the lengths of a response's own part
record HasLengths (e k c s : Bytes) : Type 0 where
  ephemeral : length e ≡ 32
  signing : length k ≡ 32
  confirmation : length c ≡ 32
  signed : length s ≡ 64

respond_lengths :
    (t : Terms) (e k c s : Bytes) (r : HandshakeResponse)
    → respond t (bytes e) (bytes k) (bytes c) (bytes s) ≡ ok r
    → HasLengths e k c s
unfolding validate_bytes
respond_lengths t e k c s r h = ground arith

module _ (printable : ℕ → Bool) where
  -- the constructor, called on the message's own fields, accepts them
  abbrev pub IsResponse : HandshakeResponse → Type 0
  IsResponse r =
      make_response printable (int (pos r.version)) (str r.suite) (str r.initiator)
        (str r.responder) (bytes r.initiator_ephemeral_public_key)
        (bytes r.initiator_signing_public_key) (bytes r.responder_ephemeral_public_key)
        (bytes r.responder_signing_public_key) (bytes r.responder_key_confirmation)
        (bytes r.signature)
      ≡ ok r

  IsResponse-lengths :
      (r : HandshakeResponse)
      → IsResponse r
      → IsTerms printable r.terms
        × HasLengths r.responder_ephemeral_public_key r.responder_signing_public_key
            r.responder_key_confirmation r.signature
  unfolding make_response
  IsResponse-lengths r h =
      let (t, ht, h1) =
        bind-eq-ok
          (validate_offer_fields printable (int (pos r.version)) (str r.suite) (str r.initiator)
            (str r.responder) (bytes r.initiator_ephemeral_public_key)
            (bytes r.initiator_signing_public_key))
          _ h in
      (
        (own_terms printable r.terms t ht).0,
        respond_lengths t r.responder_ephemeral_public_key r.responder_signing_public_key
            r.responder_key_confirmation r.signature r h1,
      )

  abbrev pub ResponseHoldsBytes : HandshakeResponse → Type 0
  ResponseHoldsBytes r =
      AreBytes r.initiator_ephemeral_public_key
      × AreBytes r.initiator_signing_public_key
      × AreBytes r.responder_ephemeral_public_key
      × AreBytes r.responder_signing_public_key
      × AreBytes r.responder_key_confirmation
      × AreBytes r.signature

  response_expected :
      (r : HandshakeResponse)
      → IsTerms printable r.terms
      → ResponseHoldsBytes r
      → AreExpected (ascii "response") response_fields (ordered_response r)
  response_expected r t (ie, is, re, rs, c, s) = record {
    clean = (
      refl,
      name_clean printable r.initiator t.initiator_name,
      (
        refl,
        hex-all_scalar r.initiator_ephemeral_public_key ie,
        (
          refl,
          hex-all_scalar r.initiator_signing_public_key is,
          (
            refl,
            refl,
            (
              refl,
              name_clean printable r.responder t.responder_name,
              (
                refl,
                hex-all_scalar r.responder_ephemeral_public_key re,
                (
                  refl,
                  hex-all_scalar r.responder_key_confirmation c,
                  (
                    refl,
                    hex-all_scalar r.responder_signing_public_key rs,
                    (
                      refl,
                      hex-all_scalar r.signature s,
                      (refl, supported_clean r.suite t.supported, (refl, tt, tt)),
                    ),
                  ),
                ),
              ),
            ),
          ),
        ),
      ),
    );
    distinct = distinct-response r;
    accepted = accepted-response r;
  }

  construct_response-ordered :
      (r : HandshakeResponse)
      → IsResponse r
      → ResponseHoldsBytes r
      → construct_response printable (fields_of (ordered_response r)) ≡ ok (ok r)
  unfolding construct_response
  construct_response-ordered r h (ie, is, re, rs, c, s) =
      let (t, long) = IsResponse-lengths r h in
      rw
        (
          decode_hex-hex r.initiator_ephemeral_public_key 32 ie t.ephemeral_length,
          decode_hex-hex r.initiator_signing_public_key 32 is t.signing_length,
          decode_hex-hex r.responder_ephemeral_public_key 32 re long.ephemeral,
          decode_hex-hex r.responder_signing_public_key 32 rs long.signing,
          decode_hex-hex r.responder_key_confirmation 32 c long.confirmation,
          decode_hex-hex r.signature 64 s long.signed,
        )
        (ap ok h)

  -- A response that its constructor accepts, its byte strings holding bytes: `from_bytes` reads a byte
  -- string as this response exactly if `to_bytes` of the response returns that byte string.
  pub response_from_bytes_iff_to_bytes :
      (r : HandshakeResponse) (encoding : Bytes)
      → IsResponse r
      → ResponseHoldsBytes r
      → (response_from_bytes printable (bytes encoding) ≡ ok r)
        ↔ (response_to_bytes r ≡ ok encoding)
  response_from_bytes_iff_to_bytes r encoding h hb =
      let (t, _) = IsResponse-lengths r h in
      (
        read_message_canonical (ascii "response") response_fields (construct_response printable)
            response_members encoding r,
        read_message_back (ascii "response") response_fields (construct_response printable)
            response_members encoding r (ordered_response r) (dumps-response r)
            (response_expected r t hb) (construct_response-ordered r h hb),
      )
