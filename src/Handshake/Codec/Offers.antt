-- ===== src/Handshake/Codec/Offers.antt =====
-- That an offer of src/cyphersyntax/handshake.py is read back from its bytes, and from no others.
use cypher_syntax.Py.Result.{ok, bind-eq-ok}
use cypher_syntax.Py.Value.{int, str, bytes, object, Text, Bytes}
use cypher_syntax.Py.Text.{ascii}
use cypher_syntax.Py.Hex.{hex, AreBytes, hex-all_scalar}
use cypher_syntax.Names.{name_clean}
use cypher_syntax.Json.Parse.{distinct_keys}
use cypher_syntax.Json.Dump.{Member, text, number, dumps, object_text, fields_of}
use cypher_syntax.Handshake.Fields.{validate_bytes, validate_offer_fields}
use cypher_syntax.Handshake.Messages.{HandshakeOffer, make_offer}
use cypher_syntax.Handshake.Validity.{IsTerms}
use cypher_syntax.Handshake.Construct.{own_terms}
use cypher_syntax.Handshake.Codec.{
  offer_fields, expected_object, offer_members, offer_to_bytes, construct_offer, offer_from_bytes,
}
use cypher_syntax.Handshake.Codec.Reading.{
  supported_clean, own_bytes, decode_hex-hex, AreExpected, read_message_canonical,
  read_message_back,
}
use cypher_syntax.Prelude.{ℕ, ◌≡◌, refl, ap, ◌↔◌, Bool, true, false, List, [], ◌∷◌, pos, length}

-- the members as `sort_keys` orders them
abbrev ordered_offer : HandshakeOffer → List (Text × Member)
ordered_offer o =
    (ascii "initiator", text o.initiator)
    ∷ (ascii "initiator_ephemeral_public_key", text (hex o.initiator_ephemeral_public_key))
    ∷ (ascii "initiator_signing_public_key", text (hex o.initiator_signing_public_key))
    ∷ (ascii "kind", text (ascii "offer"))
    ∷ (ascii "responder", text o.responder)
    ∷ (ascii "signature", text (hex o.signature))
    ∷ (ascii "suite", text o.suite)
    ∷ (ascii "v", number (pos o.version))
    ∷ []

dumps-offer :
    (o : HandshakeOffer) → dumps false (offer_members o) ≡ object_text false (ordered_offer o)
unfolding dumps
dumps-offer o = refl

distinct-offer : (o : HandshakeOffer) → distinct_keys (fields_of (ordered_offer o)) ≡ true
unfolding distinct_keys
distinct-offer o = refl

accepted-offer :
    (o : HandshakeOffer)
    → expected_object (ascii "offer") offer_fields (object (fields_of (ordered_offer o)))
      ≡ ok (fields_of (ordered_offer o))
unfolding expected_object
accepted-offer o = refl

module _ (printable : ℕ → Bool) where
  -- the constructor, called on the message's own fields, accepts them
  abbrev pub IsOffer : HandshakeOffer → Type 0
  IsOffer o =
      make_offer printable (int (pos o.version)) (str o.suite) (str o.initiator) (str o.responder)
        (bytes o.initiator_ephemeral_public_key) (bytes o.initiator_signing_public_key)
        (bytes o.signature)
      ≡ ok o

  IsOffer-lengths :
      (o : HandshakeOffer) → IsOffer o → IsTerms printable o.terms × (length o.signature ≡ 64)
  unfolding make_offer
  IsOffer-lengths o h =
      let (t, ht, h1) =
        bind-eq-ok
          (validate_offer_fields printable (int (pos o.version)) (str o.suite) (str o.initiator)
            (str o.responder) (bytes o.initiator_ephemeral_public_key)
            (bytes o.initiator_signing_public_key))
          _ h in
      let (s, hs, _) = bind-eq-ok (validate_bytes (bytes o.signature) 64) _ h1 in
      ((own_terms printable o.terms t ht).0, own_bytes o.signature 64 hs)

  abbrev pub OfferHoldsBytes : HandshakeOffer → Type 0
  OfferHoldsBytes o =
      AreBytes o.initiator_ephemeral_public_key
      × AreBytes o.initiator_signing_public_key
      × AreBytes o.signature

  offer_expected :
      (o : HandshakeOffer)
      → IsTerms printable o.terms
      → OfferHoldsBytes o
      → AreExpected (ascii "offer") offer_fields (ordered_offer o)
  offer_expected o t (ie, is, s) = record {
    clean = (
      refl,
      name_clean printable o.initiator t.initiator_name,
      (
        refl,
        hex-all_scalar o.initiator_ephemeral_public_key ie,
        (
          refl,
          hex-all_scalar o.initiator_signing_public_key is,
          (
            refl,
            refl,
            (
              refl,
              name_clean printable o.responder t.responder_name,
              (
                refl,
                hex-all_scalar o.signature s,
                (refl, supported_clean o.suite t.supported, (refl, tt, tt)),
              ),
            ),
          ),
        ),
      ),
    );
    distinct = distinct-offer o;
    accepted = accepted-offer o;
  }

  construct_offer-ordered :
      (o : HandshakeOffer)
      → IsOffer o
      → OfferHoldsBytes o
      → construct_offer printable (fields_of (ordered_offer o)) ≡ ok (ok o)
  unfolding construct_offer
  construct_offer-ordered o h (ie, is, s) =
      let (t, long) = IsOffer-lengths o h in
      rw
        (
          decode_hex-hex o.initiator_ephemeral_public_key 32 ie t.ephemeral_length,
          decode_hex-hex o.initiator_signing_public_key 32 is t.signing_length,
          decode_hex-hex o.signature 64 s long,
        )
        (ap ok h)

  -- An offer that its constructor accepts, its byte strings holding bytes: `from_bytes` reads a byte
  -- string as this offer exactly if `to_bytes` of the offer returns that byte string.
  pub offer_from_bytes_iff_to_bytes :
      (o : HandshakeOffer) (encoding : Bytes)
      → IsOffer o
      → OfferHoldsBytes o
      → (offer_from_bytes printable (bytes encoding) ≡ ok o) ↔ (offer_to_bytes o ≡ ok encoding)
  offer_from_bytes_iff_to_bytes o encoding h hb =
      let (t, _) = IsOffer-lengths o h in
      (
        read_message_canonical (ascii "offer") offer_fields (construct_offer printable)
            offer_members encoding o,
        read_message_back (ascii "offer") offer_fields (construct_offer printable) offer_members
            encoding o (ordered_offer o) (dumps-offer o) (offer_expected o t hb)
            (construct_offer-ordered o h hb),
      )
