-- ===== src/Session/Once.antt =====
-- That a session of src/cyphersyntax/session.py decrypts no packet twice.
use mathlib.Core.Path.{subst}
use cypher_syntax.Py.Result.{Result, ok, err, replay_detected_error, Result-cases}
use cypher_syntax.Py.Exec.{Exec, reading}
use cypher_syntax.Py.Value.{Value, int, bytes, Bytes}
use cypher_syntax.Crypto.{Crypto}
use cypher_syntax.Replay.{ReplayWindow, check, authenticate_and_record}
use cypher_syntax.Replay.Invariant.{Call, authenticated, step, run, accepted_once, check_number}
use cypher_syntax.Wire.{MessageEnvelope}
use cypher_syntax.Session.State.{SessionState}
use cypher_syntax.Session.Messages.{
  next_sequence, counted, packet_of, encrypt, addressed, authenticate, receive, decrypt,
  with_window,
}
use cypher_syntax.Prelude.{ℕ, ◌≡◌, refl, sym, ap, ◌∙◌, inl, inr, Bool, List, [], ◌∷◌, ◌++◌, ℤ, pos}

-- a call of a session
pub data Use : Type 0 where
  sending receiving : Value → Use

record_number :
    (v : Value) (w : ReplayWindow) (operation : Exec ReplayWindow Bytes) (a : Bytes)
    → (authenticate_and_record v operation w).0 ≡ ok a
    → (n : ℕ) × (v ≡ int (pos n))
unfolding authenticate_and_record
record_number v w operation a h = elim (Result-cases (check w v)) [
  | inl (n, e) ↦ (n, (check_number w v n e).0)
  | inr (x, e) ↦ absurd (cc (rw e at h))
]

refused_again :
    (v : Value) (w : ReplayWindow) (operation : Exec ReplayWindow Bytes) (a : Bytes)
    (calls : List Call) (second : Exec ReplayWindow Bytes)
    → (authenticate_and_record v operation w).0 ≡ ok a
    → authenticate_and_record v second (run calls (authenticate_and_record v operation w).1)
      ≡ (err replay_detected_error, run calls (authenticate_and_record v operation w).1)
refused_again v w operation a calls second h =
    let (n, e) = record_number v w operation a h in
    subst
      (λ u.
        (authenticate_and_record u operation w).0 ≡ ok a
        → authenticate_and_record u second (run calls (authenticate_and_record u operation w).1)
          ≡ (err replay_detected_error, run calls (authenticate_and_record u operation w).1))
      (sym e) (λ k. accepted_once w n operation a calls second k) h

module _ (c : Crypto) (printable : ℕ → Bool) where
  unfoldable pub after_use : Use → SessionState → SessionState
  after_use (sending plaintext) self = (encrypt c printable plaintext self).1
  after_use (receiving blob) self = (decrypt c printable blob self).1

  unfoldable pub after_uses : List Use → SessionState → SessionState
  after_uses [] self = self
  after_uses (u ∷ uses) self = after_uses uses (after_use u self)

  abbrev moved : SessionState → ℤ → List Call → SessionState
  moved s next calls = record s { send_sequence = next; replay_window = run calls s.replay_window }

  -- `s'` differs from `s` by its next number and by calls of its window
  abbrev Moved : SessionState → SessionState → Type 0
  Moved s s' = (next : ℤ) × (calls : List Call) × (s' ≡ moved s next calls)

  counted-Moved : (r : Result Bytes) (s : SessionState) → Moved s (counted r s).1
  unfolding run
  counted-Moved (ok p) s = (next_sequence s.send_sequence, [], refl)
  counted-Moved (err e) s = (s.send_sequence, [], refl)

  receive-Moved :
      (r : Result MessageEnvelope) (s : SessionState) → Moved s (receive c printable r s).1
  unfolding run step
  receive-Moved (ok e) s =
      (s.send_sequence, authenticated e.sequence (authenticate c printable s e) ∷ [], refl)
  receive-Moved (err e) s = (s.send_sequence, [], refl)

  after_use-Moved : (u : Use) (s : SessionState) → Moved s (after_use u s)
  unfolding after_use encrypt decrypt
  after_use-Moved (sending (bytes p)) s = counted-Moved (packet_of c printable s p) s
  after_use-Moved (sending _) s = (s.send_sequence, [], unfold run in refl)
  after_use-Moved (receiving blob) s = receive-Moved (addressed c printable s blob) s

  run-append : (xs ys : List Call) (w : ReplayWindow) → run (xs ++ ys) w ≡ run ys (run xs w)
  unfolding run
  run-append [] ys w = refl
  run-append (x ∷ xs) ys w = run-append xs ys (step x w)

  after_uses-Moved : (uses : List Use) (s : SessionState) → Moved s (after_uses uses s)
  unfolding after_uses
  after_uses-Moved [] s = (s.send_sequence, [], unfold run in refl)
  after_uses-Moved (u ∷ uses) s =
      let (n, xs, e) = after_use-Moved u s in
      let (m, ys, f) = after_uses-Moved uses (after_use u s) in
      (
        m,
        xs ++ ys,
        f
            ∙ ap (λ x. moved x m ys) e
            ∙ ap (λ w. record s { send_sequence = m; replay_window = w })
                (sym (run-append xs ys s.replay_window)),
      )

  -- the tests of a packet do not look at what a session sent and received
  addressed-moved :
      (s : SessionState) (next : ℤ) (calls : List Call) (blob : Value)
      → addressed c printable (moved s next calls) blob ≡ addressed c printable s blob
  unfolding addressed
  addressed-moved s next calls blob = refl

  addressed-received :
      (e : MessageEnvelope) (s : SessionState) (blob : Value)
      → addressed c printable (receive c printable (ok e) s).1 blob ≡ addressed c printable s blob
  unfolding addressed
  addressed-received e s blob = refl

  receive_once :
      (s t : SessionState) (e : MessageEnvelope) (plaintext : Bytes) (calls : List Call)
      → (authenticate_and_record e.sequence
          (reading (λ _. authenticate c printable s e))
          s.replay_window).0
        ≡ ok plaintext
      → t.replay_window ≡ run calls (receive c printable (ok e) s).1.replay_window
      → receive c printable (ok e) t ≡ (err replay_detected_error, t)
  receive_once s t e plaintext calls accepted window =
      let again =
        refused_again e.sequence s.replay_window (reading (λ _. authenticate c printable s e))
          plaintext calls (reading (λ _. authenticate c printable t e)) accepted in
      ap (with_window t) (
        subst
          (λ w.
            authenticate_and_record e.sequence (reading (λ _. authenticate c printable t e)) w
            ≡ (err replay_detected_error, w))
          (sym window) again)

  received :
      (r : Result MessageEnvelope) (s s' : SessionState) (plaintext : Bytes)
      → receive c printable r s ≡ (ok plaintext, s')
      → (e : MessageEnvelope) × (r ≡ ok e)
        × ((authenticate_and_record e.sequence
              (reading (λ _. authenticate c printable s e))
              s.replay_window).0
            ≡ ok plaintext)
        × ((receive c printable (ok e) s).1 ≡ s')
  received (ok e) s s' plaintext h = (e, refl, ap (λ x. x.0) h, ap (λ x. x.1) h)
  received (err x) s s' plaintext h = absurd (cc (ap (λ x. x.0) h))

  -- A packet that a session has decrypted is refused by it ever after with ReplayDetectedError,
  -- whatever it encrypts and decrypts in between, and the session stays as it is.
  pub decrypt_once :
      (s s' : SessionState) (blob : Value) (plaintext : Bytes) (uses : List Use)
      → decrypt c printable blob s ≡ (ok plaintext, s')
      → decrypt c printable blob (after_uses uses s')
        ≡ (err replay_detected_error, after_uses uses s')
  unfolding decrypt
  decrypt_once s s' blob plaintext uses h =
      let (e, tests, accepted, left) = received (addressed c printable s blob) s s' plaintext h in
      let (next, calls, end) = after_uses-Moved uses s' in
      let t = after_uses uses s' in
      let same : addressed c printable t blob ≡ ok e =
        ap (λ x. addressed c printable x blob) end
        ∙ addressed-moved s' next calls blob
        ∙ ap (λ x. addressed c printable x blob) (sym left)
        ∙ addressed-received e s blob
        ∙ tests in
      ap (λ r. receive c printable r t) same
      ∙ receive_once s t e plaintext calls accepted
          (ap (λ x. x.replay_window) end ∙ ap (λ x. run calls x.replay_window) (sym left))
