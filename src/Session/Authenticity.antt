-- ===== src/Session/Authenticity.antt =====
-- That `complete` of src/cyphersyntax/session.py gives a session only for what the other side has
-- signed under the key that was expected of it.
use cypher_syntax.Py.Result.{
  Result, ok, err, invalid_signature_error, require, bind-eq-ok, require-eq-ok,
}
use cypher_syntax.Py.Value.{Bytes}
use cypher_syntax.Crypto.{Crypto}
use cypher_syntax.Identity.{verify_signature}
use cypher_syntax.Handshake.Messages.{
  HandshakeResponse, HandshakeConfirmation, validate_for_offer, validate_for_response,
  response_signature_payload, confirmation_signature_payload,
}
use cypher_syntax.Session.State.{SessionState, InitiatorHandshake, ResponderHandshake}
use cypher_syntax.Session.Complete.{
  settle, complete_with, accept_with, finish_initiator, finish_responder, complete_initiator,
  complete_responder,
}
use cypher_syntax.Prelude.{ℕ, ◌≡◌, ap, Bool, true, Option, none, some, list_eq, eq_of_list_eq}

settled :
    {A S : Type 0} (r : Result A) (closed pending after : S) (a : A)
    → settle r closed pending ≡ (ok a, after)
    → r ≡ ok a
settled (ok b) closed pending after a h = ap (λ p. p.0) h
settled (err e) closed pending after a h = absurd (cc (ap (λ p. p.0) h))

module _ (c : Crypto) (printable : ℕ → Bool) where
  -- what the response proved
  abbrev Proved : InitiatorHandshake → HandshakeResponse → Type 0
  Proved self r =
      (signed : Bytes) × (response_signature_payload r self.offer ≡ ok signed)
      × (c.ed25519_verify self.remote_signing_public_key r.signature signed ≡ true)
      × (r.responder_signing_public_key ≡ self.remote_signing_public_key)

  finish_initiator_sound :
      (self : InitiatorHandshake) (key : Bytes) (r : HandshakeResponse)
      (x : HandshakeConfirmation × SessionState)
      → finish_initiator c printable self key r ≡ ok x
      → Proved self r
  unfolding finish_initiator
  finish_initiator_sound self key r x h =
      let (u1, _, h1) = bind-eq-ok (validate_for_offer r self.offer) _ h in
      let (u2, anchor, h2) =
        bind-eq-ok
          (require (list_eq r.responder_signing_public_key self.remote_signing_public_key)
            invalid_signature_error)
          _ h1 in
      let (signed, payload, h3) = bind-eq-ok (response_signature_payload r self.offer) _ h2 in
      let (u3, verified, h4) =
        bind-eq-ok (verify_signature c signed r.signature self.remote_signing_public_key) _ h3 in
      (
        signed,
        payload,
        require-eq-ok (c.ed25519_verify self.remote_signing_public_key r.signature signed)
            invalid_signature_error verified,
        eq_of_list_eq r.responder_signing_public_key self.remote_signing_public_key (
            require-eq-ok (list_eq r.responder_signing_public_key self.remote_signing_public_key)
              invalid_signature_error anchor),
      )

  complete_with_sound :
      (key : Option Bytes) (self self' : InitiatorHandshake) (r : HandshakeResponse)
      (x : HandshakeConfirmation × SessionState)
      → complete_with c printable key r self ≡ (ok x, self')
      → Proved self r
  complete_with_sound none self self' r x h = absurd (cc (ap (λ p. p.0) h))
  complete_with_sound (some key) self self' r x h =
      finish_initiator_sound self key r x
        (settled (finish_initiator c printable self key r) _ self self' x h)

  -- An initiator gets a session only from a response that bears the expected public key and a
  -- signature, valid under it, of this initiator's own offer and of the response.
  pub complete_initiator_authentic :
      (self self' : InitiatorHandshake) (r : HandshakeResponse) (n : HandshakeConfirmation)
      (s : SessionState)
      → complete_initiator c printable r self ≡ (ok (n, s), self')
      → (signed : Bytes) × (response_signature_payload r self.offer ≡ ok signed)
        × (c.ed25519_verify self.remote_signing_public_key r.signature signed ≡ true)
        × (r.responder_signing_public_key ≡ self.remote_signing_public_key)
  unfolding complete_initiator
  complete_initiator_authentic self self' r n s h =
      complete_with_sound self.ephemeral_private_key self self' r (n, s) h

module _ (c : Crypto) where
  finish_responder_sound :
      (self : ResponderHandshake) (root : Bytes) (n : HandshakeConfirmation) (s : SessionState)
      → finish_responder c self root n ≡ ok s
      → (signed : Bytes) × (confirmation_signature_payload n self.offer self.response ≡ ok signed)
        × (c.ed25519_verify self.remote_signing_public_key n.signature signed ≡ true)
  unfolding finish_responder
  finish_responder_sound self root n s h =
      let (u1, _, h1) = bind-eq-ok (validate_for_response n self.response) _ h in
      let (signed, payload, h2) =
        bind-eq-ok (confirmation_signature_payload n self.offer self.response) _ h1 in
      let (u2, verified, h3) =
        bind-eq-ok (verify_signature c signed n.signature self.remote_signing_public_key) _ h2 in
      (
        signed,
        payload,
        require-eq-ok (c.ed25519_verify self.remote_signing_public_key n.signature signed)
            invalid_signature_error verified,
      )

  accept_with_sound :
      (root : Option Bytes) (self self' : ResponderHandshake) (n : HandshakeConfirmation)
      (s : SessionState)
      → accept_with c root n self ≡ (ok s, self')
      → (signed : Bytes) × (confirmation_signature_payload n self.offer self.response ≡ ok signed)
        × (c.ed25519_verify self.remote_signing_public_key n.signature signed ≡ true)
  accept_with_sound none self self' n s h = absurd (cc (ap (λ p. p.0) h))
  accept_with_sound (some root) self self' n s h =
      finish_responder_sound self root n s
        (settled (finish_responder c self root n) _ self self' s h)

  -- A responder gets a session only from a confirmation with a signature, valid under the expected
  -- public key, of this responder's own offer and response and of the confirmation.
  pub complete_responder_authentic :
      (self self' : ResponderHandshake) (n : HandshakeConfirmation) (s : SessionState)
      → complete_responder c n self ≡ (ok s, self')
      → (signed : Bytes) × (confirmation_signature_payload n self.offer self.response ≡ ok signed)
        × (c.ed25519_verify self.remote_signing_public_key n.signature signed ≡ true)
  unfolding complete_responder
  complete_responder_authentic self self' n s h = accept_with_sound self.root_key self self' n s h
