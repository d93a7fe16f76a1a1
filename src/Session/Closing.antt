-- ===== src/Session/Closing.antt =====
-- A handshake is completed once: `complete` clears its secret when it returns, and leaves everything as
-- it was when it raises.
use cypher_syntax.Py.Result.{Error, Result, ok, err, runtime_error, Result-cases}
use cypher_syntax.Py.Value.{Bytes}
use cypher_syntax.Crypto.{Crypto}
use cypher_syntax.Handshake.Messages.{HandshakeResponse, HandshakeConfirmation}
use cypher_syntax.Session.State.{SessionState, InitiatorHandshake, ResponderHandshake}
use cypher_syntax.Session.Complete.{
  settle, complete_with, accept_with, finish_initiator, finish_responder, complete_initiator,
  complete_responder,
}
use cypher_syntax.Prelude.{ℕ, ◌≡◌, refl, ap, ◌∙◌, ◌⊎◌, inl, inr, Bool, Option, none, some}

module _ (c : Crypto) (printable : ℕ → Bool) where
  pub complete_initiator_ok :
      (self : InitiatorHandshake) (key : Bytes) (r : HandshakeResponse) (n : HandshakeConfirmation)
      (s : SessionState)
      → self.ephemeral_private_key ≡ some key
      → finish_initiator c printable self key r ≡ ok (n, s)
      → complete_initiator c printable r self
        ≡ (ok (n, s), record self { ephemeral_private_key = none })
  unfolding complete_initiator
  complete_initiator_ok self key r n s e h =
      ap (λ (k : Option Bytes). complete_with c printable k r self) e
      ∙ ap
          (λ (m : Result (HandshakeConfirmation × SessionState)).
            settle m (record self { ephemeral_private_key = none }) self)
          h

  -- `complete` of an initiator either raises and changes nothing, or returns and closes the handshake;
  -- from then on it raises RuntimeError, whatever the response.
  pub complete_initiator_once :
      (self : InitiatorHandshake) (r : HandshakeResponse)
      → ((e : Error) × (complete_initiator c printable r self ≡ (err e, self)))
        ⊎ ((x : HandshakeConfirmation × SessionState) × (closed : InitiatorHandshake)
            × (complete_initiator c printable r self ≡ (ok x, closed))
            × ((q : HandshakeResponse)
                → complete_initiator c printable q closed ≡ (err runtime_error, closed)))
  unfolding complete_initiator
  complete_initiator_once self r = initiator_cases self.ephemeral_private_key
    where
      initiator_cases :
          (k : Option Bytes)
          → ((e : Error) × (complete_with c printable k r self ≡ (err e, self)))
            ⊎ ((x : HandshakeConfirmation × SessionState) × (closed : InitiatorHandshake)
                × (complete_with c printable k r self ≡ (ok x, closed))
                × ((q : HandshakeResponse)
                    → complete_initiator c printable q closed ≡ (err runtime_error, closed)))
      initiator_cases none = inl (runtime_error, refl)
      initiator_cases (some key) = elim (Result-cases (finish_initiator c printable self key r)) [
        | inl (x, e) ↦ inr (x, record self { ephemeral_private_key = none }, rw e, λ q. refl)
        | inr (x, e) ↦ inl (x, rw e)
      ]

module _ (c : Crypto) where
  pub complete_responder_ok :
      (self : ResponderHandshake) (root : Bytes) (n : HandshakeConfirmation) (s : SessionState)
      → self.root_key ≡ some root
      → finish_responder c self root n ≡ ok s
      → complete_responder c n self ≡ (ok s, record self { root_key = none })
  unfolding complete_responder
  complete_responder_ok self root n s e h =
      ap (λ (k : Option Bytes). accept_with c k n self) e
      ∙ ap (λ (m : Result SessionState). settle m (record self { root_key = none }) self) h

  -- `complete` of a responder either raises and changes nothing, or returns and closes the handshake;
  -- from then on it raises RuntimeError, whatever the confirmation.
  pub complete_responder_once :
      (self : ResponderHandshake) (n : HandshakeConfirmation)
      → ((e : Error) × (complete_responder c n self ≡ (err e, self)))
        ⊎ ((s : SessionState) × (closed : ResponderHandshake) × (complete_responder c n self
              ≡ (ok s, closed))
            × ((m : HandshakeConfirmation)
                → complete_responder c m closed ≡ (err runtime_error, closed)))
  unfolding complete_responder
  complete_responder_once self n = responder_cases self.root_key
    where
      responder_cases :
          (k : Option Bytes)
          → ((e : Error) × (accept_with c k n self ≡ (err e, self)))
            ⊎ ((s : SessionState) × (closed : ResponderHandshake) × (accept_with c k n self
                  ≡ (ok s, closed))
                × ((m : HandshakeConfirmation)
                    → complete_responder c m closed ≡ (err runtime_error, closed)))
      responder_cases none = inl (runtime_error, refl)
      responder_cases (some key) = elim (Result-cases (finish_responder c self key n)) [
        | inl (x, e) ↦ inr (x, record self { root_key = none }, rw e, λ q. refl)
        | inr (x, e) ↦ inl (x, rw e)
      ]
