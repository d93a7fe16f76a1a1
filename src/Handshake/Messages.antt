-- ===== src/Handshake/Messages.antt =====
-- The three messages of src/cyphersyntax/handshake.py: their constructors, which validate, the
-- tests of one message against another, and the bytes that the signatures cover.
use cypher_syntax.Py.Result.{Result, ok, value_error, ◌>>=◌, ◌>>◌, require}
use cypher_syntax.Py.Value.{Value, int, str, bytes, Text, Bytes}
use cypher_syntax.Py.Text.{ascii, utf8, decimal}
use cypher_syntax.Handshake.Fields.{
  Terms, x25519_public_key_length, ed25519_public_key_length, ed25519_signature_length,
  key_confirmation_length, validate_version, validate_suite, validate_bytes, validate_participants,
  validate_offer_fields, encode_fields, handshake_context,
}
use cypher_syntax.Prelude.{ℕ, Bool, not, [], ◌∷◌, ◌++◌, ◌==◌, pos, list_eq}

pub record HandshakeOffer : Type 0 where
  pub terms : Terms
  pub open terms use *
  pub signature : Bytes

pub record HandshakeResponse : Type 0 where
  pub terms : Terms
  pub open terms use *
  pub responder_ephemeral_public_key : Bytes
  pub responder_signing_public_key : Bytes
  pub responder_key_confirmation : Bytes
  pub signature : Bytes

pub record HandshakeConfirmation : Type 0 where
  pub version : ℕ
  pub suite : Text
  pub initiator : Text
  pub responder : Text
  pub initiator_ephemeral_public_key : Bytes
  pub responder_ephemeral_public_key : Bytes
  pub initiator_key_confirmation : Bytes
  pub signature : Bytes

-- the part of a response's fields behind the terms
abbrev pub respond :
    Terms
    → (ephemeral_key signing_key key_confirmation signature : Value) → Result HandshakeResponse
respond terms ephemeral_key signing_key key_confirmation signature = do
  e ← validate_bytes ephemeral_key x25519_public_key_length
  require (not (list_eq e terms.initiator_ephemeral_public_key)) value_error
  k ← validate_bytes signing_key ed25519_public_key_length
  c ← validate_bytes key_confirmation key_confirmation_length
  s ← validate_bytes signature ed25519_signature_length
  ok (record {
    terms = terms;
    responder_ephemeral_public_key = e;
    responder_signing_public_key = k;
    responder_key_confirmation = c;
    signature = s;
  })

module _ (printable : ℕ → Bool) where
  -- `HandshakeOffer(…)`, with `__post_init__`
  unfoldable pub make_offer :
      (version suite initiator responder ephemeral_key signing_key signature : Value)
      → Result HandshakeOffer
  make_offer version suite initiator responder ephemeral_key signing_key signature = do
    terms ←
        validate_offer_fields printable version suite initiator responder ephemeral_key signing_key
    s ← validate_bytes signature ed25519_signature_length
    ok (record { terms = terms; signature = s })

  -- `HandshakeOffer.signature_payload_for`
  unfoldable pub signature_payload_for :
      (version suite initiator responder ephemeral_key signing_key : Value) → Result Bytes
  signature_payload_for version suite initiator responder ephemeral_key signing_key = do
    terms ←
        validate_offer_fields printable version suite initiator responder ephemeral_key signing_key
    handshake_context terms

  -- `HandshakeOffer.signature_payload`
  unfoldable pub offer_signature_payload : HandshakeOffer → Result Bytes
  offer_signature_payload o =
      signature_payload_for (int (pos o.version)) (str o.suite) (str o.initiator) (str o.responder)
        (bytes o.initiator_ephemeral_public_key) (bytes o.initiator_signing_public_key)

  -- `HandshakeResponse(…)`, with `__post_init__`
  unfoldable pub make_response :
      (version suite initiator responder initiator_ephemeral_key initiator_signing_key : Value)
      (ephemeral_key signing_key key_confirmation signature : Value)
      → Result HandshakeResponse
  make_response version suite initiator responder ie is ephemeral_key signing_key key_confirmation
        signature =
      do
        terms ← validate_offer_fields printable version suite initiator responder ie is
        respond terms ephemeral_key signing_key key_confirmation signature

  -- `HandshakeResponse.from_offer`
  unfoldable pub from_offer :
      HandshakeOffer
      → (ephemeral_key signing_key key_confirmation signature : Value) → Result HandshakeResponse
  from_offer o ephemeral_key signing_key key_confirmation signature =
      make_response (int (pos o.version)) (str o.suite) (str o.initiator) (str o.responder)
        (bytes o.initiator_ephemeral_public_key) (bytes o.initiator_signing_public_key)
        ephemeral_key signing_key key_confirmation signature

  -- `HandshakeConfirmation(…)`, with `__post_init__`
  unfoldable pub make_confirmation :
      (version suite initiator responder : Value)
      (initiator_ephemeral_key responder_ephemeral_key key_confirmation signature : Value)
      → Result HandshakeConfirmation
  make_confirmation version suite initiator responder ie re key_confirmation signature = do
    v ← validate_version version
    t ← validate_suite suite
    names ← validate_participants printable initiator responder
    i ← validate_bytes ie x25519_public_key_length
    r ← validate_bytes re x25519_public_key_length
    require (not (list_eq r i)) value_error
    c ← validate_bytes key_confirmation key_confirmation_length
    s ← validate_bytes signature ed25519_signature_length
    ok (record {
      version = v;
      suite = t;
      initiator = names.0;
      responder = names.1;
      initiator_ephemeral_public_key = i;
      responder_ephemeral_public_key = r;
      initiator_key_confirmation = c;
      signature = s;
    })

-- `response.validate_for_offer(offer)`
unfoldable pub validate_for_offer : HandshakeResponse → HandshakeOffer → Result (Unit {0})
validate_for_offer response offer = do
  require (response.version == offer.version) value_error
  require (list_eq response.suite offer.suite) value_error
  require (list_eq response.initiator offer.initiator) value_error
  require (list_eq response.responder offer.responder) value_error
  require (list_eq response.initiator_ephemeral_public_key offer.initiator_ephemeral_public_key)
      value_error
  require (list_eq response.initiator_signing_public_key offer.initiator_signing_public_key)
      value_error

-- `confirmation.validate_for_response(response)`
unfoldable pub validate_for_response : HandshakeConfirmation → HandshakeResponse → Result (Unit {0})
validate_for_response confirmation response = do
  require (confirmation.version == response.version) value_error
  require (list_eq confirmation.suite response.suite) value_error
  require (list_eq confirmation.initiator response.initiator) value_error
  require (list_eq confirmation.responder response.responder) value_error
  require
      (list_eq confirmation.initiator_ephemeral_public_key response.initiator_ephemeral_public_key)
      value_error
  require
      (list_eq confirmation.responder_ephemeral_public_key response.responder_ephemeral_public_key)
      value_error

-- `handshake_transcript(offer, response)`
unfoldable pub handshake_transcript : HandshakeOffer → HandshakeResponse → Result Bytes
handshake_transcript offer response = do
  validate_for_offer response offer
  suite ← utf8 offer.suite
  initiator ← utf8 offer.initiator
  responder ← utf8 offer.responder
  fields ← encode_fields (
      decimal offer.version
      ∷ suite
      ∷ initiator
      ∷ responder
      ∷ offer.initiator_ephemeral_public_key
      ∷ offer.initiator_signing_public_key
      ∷ offer.signature
      ∷ response.responder_ephemeral_public_key
      ∷ response.responder_signing_public_key
      ∷ [])
  ok (ascii "CypherSyntax/handshake-transcript/v1" ++ fields)

-- `response.signature_payload(offer)`
unfoldable pub response_signature_payload : HandshakeResponse → HandshakeOffer → Result Bytes
response_signature_payload response offer = do
  transcript ← handshake_transcript offer response
  fields ← encode_fields (transcript ∷ response.responder_key_confirmation ∷ [])
  ok (ascii "CypherSyntax/handshake-response-signature/v1" ++ fields)

-- `confirmation.signature_payload(offer, response)`
unfoldable pub confirmation_signature_payload :
    HandshakeConfirmation → HandshakeOffer → HandshakeResponse → Result Bytes
confirmation_signature_payload confirmation offer response = do
  validate_for_response confirmation response
  transcript ← handshake_transcript offer response
  fields ← encode_fields (
      transcript ∷ response.responder_key_confirmation ∷ confirmation.initiator_key_confirmation
      ∷ [])
  ok (ascii "CypherSyntax/handshake-confirmation-signature/v1" ++ fields)
