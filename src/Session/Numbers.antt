-- ===== src/Session/Numbers.antt =====
-- That a session of src/cyphersyntax/session.py gives no number to two packets.
use cypher_syntax.Py.Result.{Result, ok, err}
use cypher_syntax.Py.Value.{int, bytes, Bytes}
use cypher_syntax.Py.Hex.{AreBytes}
use cypher_syntax.Crypto.{Crypto, Correct}
use cypher_syntax.Wire.{MessageEnvelope, from_bytes}
use cypher_syntax.Session.State.{SessionState}
use cypher_syntax.Session.Messages.{
  next_sequence, counted, packet_of, encrypt, addressed, receive, decrypt,
}
use cypher_syntax.Session.Delivery.{Sent, encrypt_sound, envelope_read, sealed}
use cypher_syntax.Session.Once.{Use, sending, receiving, after_use, after_uses}
use cypher_syntax.Prelude.{ℕ, suc, ◌≤◌, ◌<◌, ◌≡◌, sym, ap, ◌∙◌, Bool, List, [], ◌∷◌, arith, pos}

-- the next number of a session is a natural number, and at least `n`
abbrev IsPast : ℕ → SessionState → Type 0
IsPast n s = (k : ℕ) × (s.send_sequence ≡ pos k) × (n ≤ k)

module _ (c : Crypto) (printable : ℕ → Bool) where
  counted-IsPast :
      (n : ℕ) (r : Result Bytes) (s : SessionState) → IsPast n s → IsPast n (counted r s).1
  counted-IsPast n (ok p) s (k, e, h) = (suc k, ap next_sequence e, omega arith)
  counted-IsPast n (err x) s h = h

  receive-IsPast :
      (n : ℕ) (r : Result MessageEnvelope) (s : SessionState)
      → IsPast n s
      → IsPast n (receive c printable r s).1
  receive-IsPast n (ok e) s h = h
  receive-IsPast n (err x) s h = h

  after_use-IsPast :
      (n : ℕ) (u : Use) (s : SessionState) → IsPast n s → IsPast n (after_use c printable u s)
  unfolding after_use encrypt decrypt
  after_use-IsPast n (sending (bytes p)) s h = counted-IsPast n (packet_of c printable s p) s h
  after_use-IsPast n (sending _) s h = h
  after_use-IsPast n (receiving blob) s h = receive-IsPast n (addressed c printable s blob) s h

  after_uses-IsPast :
      (n : ℕ) (uses : List Use) (s : SessionState)
      → IsPast n s
      → IsPast n (after_uses c printable uses s)
  unfolding after_uses
  after_uses-IsPast n [] s h = h
  after_uses-IsPast n (u ∷ uses) s h =
      after_uses-IsPast n uses (after_use c printable u s) (after_use-IsPast n u s h)

  encrypted-IsPast :
      (s s' : SessionState) (plaintext packet : Bytes) (sent : Sent c printable s plaintext packet)
      → s' ≡ record s { send_sequence = next_sequence s.send_sequence }
      → IsPast (suc sent.number) s'
  encrypted-IsPast s s' plaintext packet sent e =
      let number : s.send_sequence ≡ pos sent.number = cc (sent.numbered) in
      (suc sent.number, ap (λ x. x.send_sequence) e ∙ ap next_sequence number, omega arith)

  IsPast-number :
      (n : ℕ) (s : SessionState) (plaintext packet : Bytes)
      (sent : Sent c printable s plaintext packet)
      → IsPast n s
      → n ≤ sent.number
  IsPast-number n s plaintext packet sent (k, e, h) =
      let number : int (pos k) ≡ int (pos sent.number) = ap int (sym e) ∙ sent.numbered in
      let same : k ≡ sent.number = cc number in omega (arith, same, h)

  -- Over primitives that encrypt bytes to bytes, for plaintexts of bytes: of two packets that a session
  -- encrypts, whatever calls come in between, `from_bytes` reads both, and the later one's envelope
  -- bears the greater number.
  pub numbers_increase :
      (s s' t' : SessionState) (first second packet later : Bytes) (uses : List Use)
      → Correct c
      → AreBytes first
      → AreBytes second
      → encrypt c printable (bytes first) s ≡ (ok packet, s')
      → encrypt c printable (bytes second) (after_uses c printable uses s') ≡ (ok later, t')
      → (e : MessageEnvelope) × (f : MessageEnvelope) × (n : ℕ) × (m : ℕ) × (from_bytes printable
            (bytes packet)
          ≡ ok e)
        × (from_bytes printable (bytes later) ≡ ok f)
        × (e.sequence ≡ int (pos n))
        × (f.sequence ≡ int (pos m))
        × (n < m)
  numbers_increase s s' t' first second packet later uses correct hf hs h k =
      let t = after_uses c printable uses s' in
      let (sent, moved) = encrypt_sound c printable s s' first packet h in
      let (sent', _) = encrypt_sound c printable t t' second later k in
      let past =
        after_uses-IsPast (suc sent.number) uses s'
          (encrypted-IsPast s s' first packet sent moved) in
      let more = IsPast-number (suc sent.number) t second later sent' past in
      (
        sealed s sent.ciphertext,
        sealed t sent'.ciphertext,
        sent.number,
        sent'.number,
        envelope_read c printable correct s first packet hf sent,
        envelope_read c printable correct t second later hs sent',
        sent.numbered,
        sent'.numbered,
        omega (arith, more),
      )
