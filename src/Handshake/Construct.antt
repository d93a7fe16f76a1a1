-- ===== src/Handshake/Construct.antt =====
-- What the constructors of the messages of src/cyphersyntax/handshake.py accept, and the messages
-- that come out.
use cypher_syntax.Py.Result.{ok, bind-eq-ok}
use cypher_syntax.Py.Value.{int, str, bytes, Bytes}
use cypher_syntax.Handshake.Fields.{Terms, validate_bytes, validate_offer_fields, handshake_context}
use cypher_syntax.Handshake.Validity.{
  IsTerms, validate_bytes_complete, validate_offer_fields_sound, validate_version_complete,
  validate_suite_complete, validate_participants_complete,
}
use cypher_syntax.Handshake.Messages.{
  HandshakeOffer, HandshakeResponse, make_response, make_confirmation, from_offer,
  signature_payload_for, offer_signature_payload, respond,
}
use cypher_syntax.Prelude.{ℕ, ◌≡◌, sym, Bool, false, arith, pos, length, list_eq}

-- a response's own part
pub record Answers (o : HandshakeOffer) (e k f s : Bytes) (r : HandshakeResponse) : Type 0 where
  pub same_terms : r.terms ≡ o.terms
  pub ephemeral : r.responder_ephemeral_public_key ≡ e
  pub signing : r.responder_signing_public_key ≡ k
  pub confirming : r.responder_key_confirmation ≡ f
  pub signed : r.signature ≡ s
  pub ephemeral_length : length e ≡ 32
  pub signing_length : length k ≡ 32
  pub confirmation_length : length f ≡ 32
  pub signature_length : length s ≡ 64
  pub distinct : list_eq e o.initiator_ephemeral_public_key ≡ false

module _ (printable : ℕ → Bool) where
  terms_eq :
      (t u : Terms)
      → int (pos t.version) ≡ int (pos u.version)
      → str t.suite ≡ str u.suite
      → str t.initiator ≡ str u.initiator
      → str t.responder ≡ str u.responder
      → bytes t.initiator_ephemeral_public_key ≡ bytes u.initiator_ephemeral_public_key
      → bytes t.initiator_signing_public_key ≡ bytes u.initiator_signing_public_key
      → t ≡ u
  terms_eq t u a b d e f g = ground arith

  -- validators accept their own terms only if these are fit, and give them back
  pub own_terms :
      (t u : Terms)
      → validate_offer_fields printable
          (int (pos t.version))
          (str t.suite)
          (str t.initiator)
          (str t.responder)
          (bytes t.initiator_ephemeral_public_key)
          (bytes t.initiator_signing_public_key)
        ≡ ok u
      → IsTerms printable t × (u ≡ t)
  own_terms t u h =
      let (fit, a, b, d, e, f, g) = validate_offer_fields_sound printable _ _ _ _ _ _ u h in
      let same = terms_eq t u a b d e f g in (rw same fit, sym same)

  respond_sound :
      (o : HandshakeOffer) (e k f s : Bytes) (r : HandshakeResponse)
      → respond o.terms (bytes e) (bytes k) (bytes f) (bytes s) ≡ ok r
      → Answers o e k f s r
  unfolding validate_bytes
  respond_sound o e k f s r h = ground arith

  pub from_offer_sound :
      (o : HandshakeOffer) (e k f s : Bytes) (r : HandshakeResponse)
      → from_offer printable o (bytes e) (bytes k) (bytes f) (bytes s) ≡ ok r
      → IsTerms printable o.terms × Answers o e k f s r
  unfolding from_offer make_response
  from_offer_sound o e k f s r h =
      let (t, ht, h1) = bind-eq-ok (validate_offer_fields printable _ _ _ _ _ _) _ h in
      let (fit, same) = own_terms o.terms t ht in (fit, respond_sound o e k f s r (rw same at h1))

  -- an offer's signed bytes can be had only if its terms are fit, and are those of the terms
  pub offer_payload_sound :
      (o : HandshakeOffer) (bs : Bytes)
      → offer_signature_payload printable o ≡ ok bs
      → IsTerms printable o.terms × (handshake_context o.terms ≡ ok bs)
  unfolding offer_signature_payload signature_payload_for
  offer_payload_sound o bs h =
      let (t, ht, h1) = bind-eq-ok (validate_offer_fields printable _ _ _ _ _ _) _ h in
      let (fit, same) = own_terms o.terms t ht in (fit, rw same at h1)

  pub make_confirmation_complete :
      (t : Terms) (e f s : Bytes)
      → IsTerms printable t
      → length e ≡ 32
      → list_eq e t.initiator_ephemeral_public_key ≡ false
      → length f ≡ 32
      → length s ≡ 64
      → make_confirmation printable
          (int (pos t.version))
          (str t.suite)
          (str t.initiator)
          (str t.responder)
          (bytes t.initiator_ephemeral_public_key)
          (bytes e)
          (bytes f)
          (bytes s)
        ≡ ok (record {
          version = t.version;
          suite = t.suite;
          initiator = t.initiator;
          responder = t.responder;
          initiator_ephemeral_public_key = t.initiator_ephemeral_public_key;
          responder_ephemeral_public_key = e;
          initiator_key_confirmation = f;
          signature = s;
        })
  unfolding make_confirmation
  make_confirmation_complete t e f s v he d hf hs = rw (
    validate_version_complete t.version v.version_one,
    validate_suite_complete t.suite v.supported,
    validate_participants_complete printable t.initiator t.responder v.initiator_name
        v.responder_name v.distinct,
    validate_bytes_complete t.initiator_ephemeral_public_key 32 v.ephemeral_length,
    validate_bytes_complete e 32 he,
    d,
    validate_bytes_complete f 32 hf,
    validate_bytes_complete s 64 hs,
  )
