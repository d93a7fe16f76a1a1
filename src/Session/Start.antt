-- ===== src/Session/Start.antt =====
-- `SessionFactory.initiator` and `SessionFactory.responder` of src/cyphersyntax/session.py. The
-- private key that `X25519PrivateKey.generate()` draws is the last argument.
use cypher_syntax.Py.Result.{
  Result, ok, err, value_error, invalid_signature_error, ◌>>=◌, ◌>>◌, require,
}
use cypher_syntax.Py.Value.{Value, int, str, bytes, Bytes}
use cypher_syntax.Py.Text.{ascii}
use cypher_syntax.Protocol.{protocol_version}
use cypher_syntax.Crypto.{Crypto, AeadSuite, suite_name}
use cypher_syntax.Kdf.{derive_session_root, derive_key_confirmation}
use cypher_syntax.Identity.{Identity, ed25519_public_bytes, sign, verify_signature}
use cypher_syntax.Handshake.Messages.{
  HandshakeOffer, HandshakeResponse, make_offer, signature_payload_for, offer_signature_payload,
  from_offer, handshake_transcript, response_signature_payload,
}
use cypher_syntax.Session.State.{parse_suite, InitiatorHandshake, ResponderHandshake}
use cypher_syntax.Prelude.{ℕ, Bool, Option, none, some, pos, replicate, list_eq}

-- the secret of `private_key.exchange(X25519PublicKey.from_public_bytes(public_key))`
abbrev pub exchanged : Option Bytes → Result Bytes
exchanged none = err value_error
exchanged (some secret) = ok secret

module _ (c : Crypto) (printable : ℕ → Bool) where
  unfoldable pub initiator :
      (local_identity : Identity) (remote_name : Value) (remote_signing_public_key : Bytes)
      (suite : AeadSuite) (supplemental_secret generated : Bytes)
      → Result InitiatorHandshake
  initiator local_identity remote_name remote_signing_public_key suite supplemental_secret
        generated =
      let version = int (pos protocol_version) in
      let name = str local_identity.name in
      let ephemeral_key = bytes (c.x25519_public generated) in
      let signing_key = bytes (ed25519_public_bytes c local_identity) in
      do
        payload ←
            signature_payload_for printable version (str (suite_name suite)) name remote_name
              ephemeral_key signing_key
        offer ←
            make_offer printable version (str (suite_name suite)) name remote_name ephemeral_key
              signing_key (bytes (sign c local_identity payload))
        ok (record {
          local_identity = local_identity;
          remote_signing_public_key = remote_signing_public_key;
          offer = offer;
          supplemental_secret = supplemental_secret;
          ephemeral_private_key = some generated;
        })

  unfoldable pub responder :
      (local_identity : Identity) (remote_signing_public_key : Bytes) (offer : HandshakeOffer)
      (supplemental_secret generated : Bytes)
      → Result (HandshakeResponse × ResponderHandshake)
  responder local_identity remote_signing_public_key offer supplemental_secret generated =
      let ephemeral_key = bytes (c.x25519_public generated) in
      let signing_key = bytes (ed25519_public_bytes c local_identity) in
      do
        require (list_eq local_identity.name offer.responder) value_error
        require (list_eq offer.initiator_signing_public_key remote_signing_public_key)
            invalid_signature_error
        signed ← offer_signature_payload printable offer
        verify_signature c signed offer.signature remote_signing_public_key
        suite ← parse_suite offer.suite
        shared_secret ← exchanged (c.x25519_exchange generated offer.initiator_ephemeral_public_key)
        provisional ←
            from_offer printable offer ephemeral_key signing_key (bytes (replicate 32 0))
              (bytes (replicate 64 0))
        transcript ← handshake_transcript offer provisional
        let transcript_hash = c.sha256 transcript
        let root_key = derive_session_root c shared_secret transcript_hash supplemental_secret
        confirmation ← derive_key_confirmation c root_key transcript_hash (ascii "responder")
        unsigned ←
            from_offer printable offer ephemeral_key signing_key (bytes confirmation)
              (bytes (replicate 64 0))
        payload ← response_signature_payload unsigned offer
        response ←
            from_offer printable offer ephemeral_key signing_key (bytes confirmation)
              (bytes (sign c local_identity payload))
        ok (
          response,
          record {
            remote_signing_public_key = remote_signing_public_key;
            offer = offer;
            response = response;
            suite = suite;
            root_key = some root_key;
          },
        )
