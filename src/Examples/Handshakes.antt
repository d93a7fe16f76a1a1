-- ===== src/Examples/Handshakes.antt =====
-- A handshake of two participants, run to its end.
use cypher_syntax.Py.Result.{Error, Result, ok, err, runtime_error}
use cypher_syntax.Py.Value.{str, Bytes}
use cypher_syntax.Py.Text.{ascii, utf8, strip, decimal}
use cypher_syntax.Py.Bytes.{to_bytes}
use cypher_syntax.Py.Utf8.{encode}
use cypher_syntax.Names.{validate_name}
use cypher_syntax.Crypto.{aes_gcm_siv, suite_name}
use cypher_syntax.Kdf.{derive_session_root, derive_key_confirmation}
use cypher_syntax.Identity.{Identity, ed25519_public_bytes}
use cypher_syntax.Handshake.Fields.{
  validate_version, validate_suite, validate_bytes, validate_participants, validate_offer_fields,
  encode_field, encode_fields, handshake_context,
}
use cypher_syntax.Handshake.Messages.{
  HandshakeResponse, HandshakeConfirmation, make_offer, signature_payload_for,
  offer_signature_payload, make_response, from_offer, make_confirmation, validate_for_offer,
  validate_for_response, handshake_transcript, response_signature_payload,
  confirmation_signature_payload,
}
use cypher_syntax.Session.State.{
  parse_suite, SessionState, open_session, InitiatorHandshake, ResponderHandshake,
}
use cypher_syntax.Session.Start.{initiator, responder}
use cypher_syntax.Session.Complete.{finish_initiator, complete_initiator, complete_responder}
use cypher_syntax.Handshake.Transcript.{
  handshake_context-injective, handshake_transcript-injective, response_signature_payload-injective,
  payloads_differ,
}
use cypher_syntax.Session.Agreement.{handshake_agreement}
use cypher_syntax.Session.Authenticity.{complete_initiator_authentic, complete_responder_authentic}
use cypher_syntax.Session.Closing.{complete_initiator_once, complete_responder_once}
use cypher_syntax.Examples.Toy.{
  toy, toy-Lengths, toy-Correct, is_visible, the_ok, the_ok_eq, fill, checksum, add_bytes,
}
use cypher_syntax.Prelude.{ℕ, true, ◌≡◌, ◌≢◌, ◌⊎◌, none, [], ◌∷◌}

abbrev alice : Identity
alice = record { name = ascii "alice"; signing_private_key = 1 ∷ []; exchange_private_key = 2 ∷ [] }

abbrev bob : Identity
bob = record { name = ascii "bob"; signing_private_key = 3 ∷ []; exchange_private_key = 4 ∷ [] }

-- all that runs when a message is made or tested
runs : ℕ
unfolding utf8 strip decimal to_bytes encode validate_name suite_name validate_version
    validate_suite validate_bytes validate_participants validate_offer_fields encode_field
    encode_fields handshake_context make_offer signature_payload_for offer_signature_payload
    make_response from_offer make_confirmation validate_for_offer validate_for_response
    handshake_transcript response_signature_payload confirmation_signature_payload
    derive_session_root derive_key_confirmation parse_suite initiator responder fill checksum
    add_bytes
runs = 0

start : Result InitiatorHandshake
start =
    initiator toy is_visible alice (str bob.name) (ed25519_public_bytes toy bob) aes_gcm_siv
      (ascii "extra") (5 ∷ 6 ∷ [])

pending_alice : InitiatorHandshake
unfolding runs start
pending_alice = the_ok start tt

started : start ≡ ok pending_alice
unfolding pending_alice
started = the_ok_eq start tt

answer : Result (HandshakeResponse × ResponderHandshake)
answer =
    responder toy is_visible bob (ed25519_public_bytes toy alice) pending_alice.offer
      (ascii "extra") (7 ∷ 8 ∷ [])

answered_by : HandshakeResponse × ResponderHandshake
unfolding runs answer pending_alice
answered_by = the_ok answer tt

answered : answer ≡ ok answered_by
unfolding answered_by
answered = the_ok_eq answer tt

handshake_agreement_example :
    (n : HandshakeConfirmation) × (root : Bytes) × (complete_initiator toy is_visible answered_by.0
        pending_alice
      ≡ (
        ok (
          n,
          open_session alice.name bob.name aes_gcm_siv root
              (toy.x25519_public (5 ∷ 6 ∷ []))
              (toy.x25519_public (7 ∷ 8 ∷ [])),
        ),
        record pending_alice { ephemeral_private_key = none },
      ))
    × (complete_responder toy n answered_by.1 ≡ (
      ok (
          open_session bob.name alice.name aes_gcm_siv root
            (toy.x25519_public (7 ∷ 8 ∷ []))
            (toy.x25519_public (5 ∷ 6 ∷ []))),
      record answered_by.1 { root_key = none },
    ))
handshake_agreement_example =
    handshake_agreement toy is_visible toy-Correct toy-Lengths alice bob (str bob.name) aes_gcm_siv
      (ascii "extra") (5 ∷ 6 ∷ []) (7 ∷ 8 ∷ []) pending_alice answered_by.0 answered_by.1
      (unfold start in started) (unfold answer in answered)

offer_bytes : Bytes
unfolding runs pending_alice start
offer_bytes = the_ok (handshake_context pending_alice.offer.terms) tt

offered : handshake_context pending_alice.offer.terms ≡ ok offer_bytes
unfolding offer_bytes
offered = the_ok_eq (handshake_context pending_alice.offer.terms) tt

transcript : Bytes
unfolding runs answered_by answer pending_alice start
transcript = the_ok (handshake_transcript pending_alice.offer answered_by.0) tt

transcribed : handshake_transcript pending_alice.offer answered_by.0 ≡ ok transcript
unfolding transcript
transcribed = the_ok_eq (handshake_transcript pending_alice.offer answered_by.0) tt

response_bytes : Bytes
unfolding runs answered_by answer pending_alice start
response_bytes = the_ok (response_signature_payload answered_by.0 pending_alice.offer) tt

responded : response_signature_payload answered_by.0 pending_alice.offer ≡ ok response_bytes
unfolding response_bytes
responded = the_ok_eq (response_signature_payload answered_by.0 pending_alice.offer) tt

completed : Result (HandshakeConfirmation × SessionState) × InitiatorHandshake
completed = complete_initiator toy is_visible answered_by.0 pending_alice

confirmation : HandshakeConfirmation
unfolding runs completed complete_initiator finish_initiator answered_by answer pending_alice start
    open_session
confirmation = (the_ok completed.0 tt).0

confirmation_bytes : Bytes
unfolding runs confirmation
confirmation_bytes =
    the_ok (confirmation_signature_payload confirmation pending_alice.offer answered_by.0) tt

confirmed :
    confirmation_signature_payload confirmation pending_alice.offer answered_by.0
    ≡ ok confirmation_bytes
unfolding confirmation_bytes
confirmed =
    the_ok_eq (confirmation_signature_payload confirmation pending_alice.offer answered_by.0) tt

handshake_context-injective_example : pending_alice.offer.terms ≡ pending_alice.offer.terms
handshake_context-injective_example =
    handshake_context-injective pending_alice.offer.terms pending_alice.offer.terms offer_bytes
      offered offered

handshake_transcript-injective_example :
    (pending_alice.offer ≡ pending_alice.offer)
    × (answered_by.0.terms ≡ answered_by.0.terms)
    × (answered_by.0.responder_ephemeral_public_key ≡ answered_by.0.responder_ephemeral_public_key)
    × (answered_by.0.responder_signing_public_key ≡ answered_by.0.responder_signing_public_key)
handshake_transcript-injective_example =
    handshake_transcript-injective pending_alice.offer pending_alice.offer answered_by.0
      answered_by.0 transcript transcribed transcribed

response_signature_payload-injective_example :
    (pending_alice.offer ≡ pending_alice.offer)
    × (record (answered_by.0) { signature = answered_by.0.signature } ≡ answered_by.0)
response_signature_payload-injective_example =
    response_signature_payload-injective pending_alice.offer pending_alice.offer answered_by.0
      answered_by.0 response_bytes responded responded

payloads_differ_example :
    (offer_bytes ≢ response_bytes)
    × (offer_bytes ≢ confirmation_bytes)
    × (response_bytes ≢ confirmation_bytes)
payloads_differ_example =
    payloads_differ pending_alice.offer.terms pending_alice.offer pending_alice.offer answered_by.0
      answered_by.0 confirmation offer_bytes response_bytes confirmation_bytes offered responded
      confirmed

complete_initiator_once_example :
    ((e : Error) × (complete_initiator toy is_visible answered_by.0 pending_alice
        ≡ (err e, pending_alice)))
    ⊎ ((x : HandshakeConfirmation × SessionState) × (closed : InitiatorHandshake)
        × (complete_initiator toy is_visible answered_by.0 pending_alice ≡ (ok x, closed))
        × ((q : HandshakeResponse)
            → complete_initiator toy is_visible q closed ≡ (err runtime_error, closed)))
complete_initiator_once_example = complete_initiator_once toy is_visible pending_alice answered_by.0

complete_responder_once_example :
    ((e : Error) × (complete_responder toy confirmation answered_by.1 ≡ (err e, answered_by.1)))
    ⊎ ((s : SessionState) × (closed : ResponderHandshake) × (complete_responder toy confirmation
            answered_by.1
          ≡ (ok s, closed))
        × ((n : HandshakeConfirmation)
            → complete_responder toy n closed ≡ (err runtime_error, closed)))
complete_responder_once_example = complete_responder_once toy answered_by.1 confirmation

agreed :
    (n : HandshakeConfirmation) × (root : Bytes) × (complete_initiator toy is_visible answered_by.0
        pending_alice
      ≡ (
        ok (
          n,
          open_session alice.name bob.name aes_gcm_siv root
              (toy.x25519_public (5 ∷ 6 ∷ []))
              (toy.x25519_public (7 ∷ 8 ∷ [])),
        ),
        record pending_alice { ephemeral_private_key = none },
      ))
    × (complete_responder toy n answered_by.1 ≡ (
      ok (
          open_session bob.name alice.name aes_gcm_siv root
            (toy.x25519_public (7 ∷ 8 ∷ []))
            (toy.x25519_public (5 ∷ 6 ∷ []))),
      record answered_by.1 { root_key = none },
    ))
agreed =
    handshake_agreement toy is_visible toy-Correct toy-Lengths alice bob (str bob.name) aes_gcm_siv
      (ascii "extra") (5 ∷ 6 ∷ []) (7 ∷ 8 ∷ []) pending_alice answered_by.0 answered_by.1
      (unfold start in started) (unfold answer in answered)

complete_initiator_authentic_example :
    (signed : Bytes) × (response_signature_payload answered_by.0 pending_alice.offer ≡ ok signed)
    × (toy.ed25519_verify pending_alice.remote_signing_public_key answered_by.0.signature signed
        ≡ true)
    × (answered_by.0.responder_signing_public_key ≡ pending_alice.remote_signing_public_key)
complete_initiator_authentic_example =
    complete_initiator_authentic toy is_visible pending_alice
      (record pending_alice { ephemeral_private_key = none }) answered_by.0 agreed.0
      (open_session alice.name bob.name aes_gcm_siv agreed.1 (toy.x25519_public (5 ∷ 6 ∷ []))
        (toy.x25519_public (7 ∷ 8 ∷ [])))
      agreed.2

complete_responder_authentic_example :
    (signed : Bytes) × (confirmation_signature_payload agreed.0 answered_by.1.offer
        answered_by.1.response
      ≡ ok signed)
    × (toy.ed25519_verify answered_by.1.remote_signing_public_key agreed.0.signature signed ≡ true)
complete_responder_authentic_example =
    complete_responder_authentic toy answered_by.1 (record answered_by.1 { root_key = none })
      agreed.0
      (open_session bob.name alice.name aes_gcm_siv agreed.1 (toy.x25519_public (7 ∷ 8 ∷ []))
        (toy.x25519_public (5 ∷ 6 ∷ [])))
      agreed.3
