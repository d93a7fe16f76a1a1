-- ===== src/Session/Failures.antt =====
-- That a call of a session of src/cyphersyntax/session.py that raises changes nothing.
use cypher_syntax.Py.Result.{Error, Result, ok, err}
use cypher_syntax.Py.Exec.{reading, then_run}
use cypher_syntax.Py.Value.{Value, bytes, Bytes}
use cypher_syntax.Crypto.{Crypto}
use cypher_syntax.Replay.{ReplayWindow, check, record_after, authenticate_and_record}
use cypher_syntax.Wire.{MessageEnvelope}
use cypher_syntax.Session.State.{SessionState}
use cypher_syntax.Session.Messages.{
  counted, packet_of, encrypt, addressed, authenticate, receive, decrypt,
}
use cypher_syntax.Prelude.{ℕ, ◌≡◌, sym, ap, ◌∙◌, ◌⊎◌, inl, inr, Bool}

recorded_nothing :
    (x : Result ℕ) (outcome : Result Bytes) (w w' : ReplayWindow) (e : Error)
    → then_run x (λ n v. record_after n (outcome, v)) w ≡ (err e, w')
    → w' ≡ w
recorded_nothing (err y) outcome w w' e h = sym (ap (λ p. p.1) h)
recorded_nothing (ok n) (err y) w w' e h = sym (ap (λ p. p.1) h)
recorded_nothing (ok n) (ok a) w w' e h = absurd (cc (ap (λ p. p.0) h))

window_kept :
    (v : Value) (outcome : Result Bytes) (w w' : ReplayWindow) (e : Error)
    → authenticate_and_record v (reading (λ _. outcome)) w ≡ (err e, w')
    → w' ≡ w
unfolding authenticate_and_record
window_kept v outcome w w' e h = recorded_nothing (check w v) outcome w w' e h

module _ (c : Crypto) (printable : ℕ → Bool) where
  counted-err :
      (r : Result Bytes) (s s' : SessionState) (e : Error) → counted r s ≡ (err e, s') → s' ≡ s
  counted-err (ok p) s s' e h = absurd (cc (ap (λ x. x.0) h))
  counted-err (err y) s s' e h = sym (ap (λ x. x.1) h)

  encrypt-err :
      (v : Value) (s s' : SessionState) (e : Error) → encrypt c printable v s ≡ (err e, s') → s' ≡ s
  unfolding encrypt
  encrypt-err (bytes p) s s' e h = counted-err (packet_of c printable s p) s s' e h
  encrypt-err _ s s' e h = sym (ap (λ x. x.1) h)

  receive-err :
      (r : Result MessageEnvelope) (s s' : SessionState) (e : Error)
      → receive c printable r s ≡ (err e, s')
      → s' ≡ s
  receive-err (err y) s s' e h = sym (ap (λ x. x.1) h)
  receive-err (ok m) s s' e h =
      let outcome =
        authenticate_and_record m.sequence (reading (λ _. authenticate c printable s m))
          s.replay_window in
      let kept : outcome.1 ≡ s.replay_window =
        window_kept m.sequence (authenticate c printable s m) s.replay_window outcome.1 e
          (ap (λ x. (x, outcome.1)) (ap (λ x. x.0) h)) in
      sym (ap (λ x. x.1) h) ∙ ap (λ w. record s { replay_window = w }) kept

  -- A call of `encrypt` or of `decrypt` that raises leaves the session as it was: a plaintext that is
  -- refused uses up no number, and a packet that is refused, forged ones included, takes no number
  -- from the honest sender.
  pub failure_changes_nothing :
      (v : Value) (s s' : SessionState) (e : Error)
      → (encrypt c printable v s ≡ (err e, s')) ⊎ (decrypt c printable v s ≡ (err e, s'))
      → s' ≡ s
  unfolding decrypt
  failure_changes_nothing v s s' e (inl h) = encrypt-err v s s' e h
  failure_changes_nothing v s s' e (inr h) = receive-err (addressed c printable s v) s s' e h
