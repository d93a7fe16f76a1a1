-- ===== src/Session/Complete.antt =====
-- `InitiatorHandshake.complete` and `ResponderHandshake.complete` of src/cyphersyntax/session.py.
use cypher_syntax.Py.Result.{
  Result, ok, err, runtime_error, key_confirmation_error, invalid_signature_error, ◌>>=◌, ◌>>◌,
  require,
}
use cypher_syntax.Py.Exec.{Exec}
use cypher_syntax.Py.Value.{int, str, bytes, Bytes}
use cypher_syntax.Py.Text.{ascii}
use cypher_syntax.Crypto.{Crypto}
use cypher_syntax.Kdf.{derive_session_root, derive_key_confirmation}
use cypher_syntax.Identity.{sign, verify_signature}
use cypher_syntax.Handshake.Messages.{
  HandshakeResponse, HandshakeConfirmation, make_confirmation, validate_for_offer,
  validate_for_response, handshake_transcript, response_signature_payload,
  confirmation_signature_payload,
}
use cypher_syntax.Session.State.{
  parse_suite, SessionState, open_session, InitiatorHandshake, ResponderHandshake,
}
use cypher_syntax.Session.Start.{exchanged}
use cypher_syntax.Prelude.{ℕ, Bool, Option, none, some, pos, replicate, list_eq}

-- a result that ends the handshake clears its secret; an exception leaves all as it was
abbrev pub settle {ℓ} : {A : Type ℓ} {S : Type ℓ} → Result A → S → S → Result A × S
settle (ok a) closed pending = (ok a, closed)
settle (err e) closed pending = (err e, pending)

module _ (c : Crypto) (printable : ℕ → Bool) where
  -- `complete` of the initiator behind the test that it is still pending
  unfoldable pub finish_initiator :
      InitiatorHandshake → Bytes → HandshakeResponse → Result (HandshakeConfirmation × SessionState)
  finish_initiator self private_key response = do
    validate_for_offer response self.offer
    require (list_eq response.responder_signing_public_key self.remote_signing_public_key)
        invalid_signature_error
    signed ← response_signature_payload response self.offer
    verify_signature c signed response.signature self.remote_signing_public_key
    suite ← parse_suite response.suite
    shared_secret ←
        exchanged (c.x25519_exchange private_key response.responder_ephemeral_public_key)
    transcript ← handshake_transcript self.offer response
    let transcript_hash = c.sha256 transcript
    let root_key = derive_session_root c shared_secret transcript_hash self.supplemental_secret
    expected ← derive_key_confirmation c root_key transcript_hash (ascii "responder")
    require (list_eq response.responder_key_confirmation expected) key_confirmation_error
    key_confirmation ← derive_key_confirmation c root_key transcript_hash (ascii "initiator")
    unsigned ←
        make_confirmation printable (int (pos response.version)) (str response.suite)
          (str response.initiator) (str response.responder)
          (bytes response.initiator_ephemeral_public_key)
          (bytes response.responder_ephemeral_public_key) (bytes key_confirmation)
          (bytes (replicate 64 0))
    payload ← confirmation_signature_payload unsigned self.offer response
    confirmation ←
        make_confirmation printable (int (pos unsigned.version)) (str unsigned.suite)
          (str unsigned.initiator) (str unsigned.responder)
          (bytes unsigned.initiator_ephemeral_public_key)
          (bytes unsigned.responder_ephemeral_public_key)
          (bytes unsigned.initiator_key_confirmation) (bytes (sign c self.local_identity payload))
    let session =
        open_session self.offer.initiator self.offer.responder suite root_key
          self.offer.initiator_ephemeral_public_key response.responder_ephemeral_public_key
    ok (confirmation, session)

  abbrev pub complete_with :
      Option Bytes
      → HandshakeResponse
      → Exec InitiatorHandshake (HandshakeConfirmation × SessionState)
  complete_with none response self = (err runtime_error, self)
  complete_with (some private_key) response self =
      settle (finish_initiator self private_key response)
        (record self { ephemeral_private_key = none }) self

  -- `InitiatorHandshake.complete`
  unfoldable pub complete_initiator :
      HandshakeResponse → Exec InitiatorHandshake (HandshakeConfirmation × SessionState)
  complete_initiator response self = complete_with self.ephemeral_private_key response self

module _ (c : Crypto) where
  -- `complete` of the responder behind the test that it is still pending
  unfoldable pub finish_responder :
      ResponderHandshake → Bytes → HandshakeConfirmation → Result SessionState
  finish_responder self root_key confirmation = do
    validate_for_response confirmation self.response
    signed ← confirmation_signature_payload confirmation self.offer self.response
    verify_signature c signed confirmation.signature self.remote_signing_public_key
    transcript ← handshake_transcript self.offer self.response
    expected ← derive_key_confirmation c root_key (c.sha256 transcript) (ascii "initiator")
    require (list_eq confirmation.initiator_key_confirmation expected) key_confirmation_error
    ok (
        open_session self.offer.responder self.offer.initiator self.suite root_key
          self.response.responder_ephemeral_public_key self.offer.initiator_ephemeral_public_key)

  abbrev pub accept_with :
      Option Bytes → HandshakeConfirmation → Exec ResponderHandshake SessionState
  accept_with none confirmation self = (err runtime_error, self)
  accept_with (some root_key) confirmation self =
      settle (finish_responder self root_key confirmation) (record self { root_key = none }) self

  -- `ResponderHandshake.complete`
  unfoldable pub complete_responder : HandshakeConfirmation → Exec ResponderHandshake SessionState
  complete_responder confirmation self = accept_with self.root_key confirmation self
