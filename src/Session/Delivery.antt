-- ===== src/Session/Delivery.antt =====
-- That what one side of a session of src/cyphersyntax/session.py encrypts, the other side decrypts.
use cypher_syntax.Py.Result.{Result, ok, err, value_error, overflow_error, require, bind-eq-ok}
use cypher_syntax.Py.Value.{int, bytes, Bytes}
use cypher_syntax.Py.Hex.{AreBytes}
use cypher_syntax.Protocol.{
  max_message_sequence, max_plaintext_bytes, validate_message_sequence,
  validate_message_sequence_sound,
}
use cypher_syntax.Crypto.{Crypto, Correct, suite_name}
use cypher_syntax.Kdf.{derive_message_key}
use cypher_syntax.Replay.{ReplayWindow, check, record_seen, authenticate_and_record}
use cypher_syntax.Replay.Invariant.{check_number}
use cypher_syntax.Wire.{MessageEnvelope, validate_metadata, associated_data, to_bytes, from_bytes}
use cypher_syntax.Wire.Roundtrip.{from_bytes_iff_to_bytes}
use cypher_syntax.Session.State.{SessionState}
use cypher_syntax.Session.Messages.{
  next_sequence, counted, unsealed, packet_of, encrypt, addressed, authenticate, decrypt,
}
use cypher_syntax.Prelude.{
  ℕ, suc, ◌≤◌, ◌≡◌, refl, sym, ap, ◌∙◌, Bool, not, leb, ℤ, pos, ltb_ℤ, length, list_eq_refl,
}

-- the other side of a session, whatever it sent and received so far
abbrev pub peer : SessionState → ℤ → ReplayWindow → SessionState
peer s next window = record {
  local_name = s.remote_name;
  remote_name = s.local_name;
  suite = s.suite;
  root_key = s.root_key;
  local_ephemeral_public_bytes = s.remote_ephemeral_public_bytes;
  remote_ephemeral_public_bytes = s.local_ephemeral_public_bytes;
  send_sequence = next;
  replay_window = window;
}

abbrev pub sealed : SessionState → Bytes → MessageEnvelope
sealed s ciphertext = record (unsealed s) { ciphertext = bytes ciphertext }

module _ (c : Crypto) (printable : ℕ → Bool) where
  -- how a packet came about
  pub record Sent (s : SessionState) (plaintext packet : Bytes) : Type 0 where
    pub number : ℕ
    pub numbered : int s.send_sequence ≡ int (pos number)
    pub in_range : number ≤ max_message_sequence
    pub derived : Bytes × Bytes
    pub derives :
        derive_message_key c s.root_key
          (int s.send_sequence)
          (suite_name s.suite)
          s.local_ephemeral_public_bytes
          s.remote_ephemeral_public_bytes
        ≡ ok derived
    pub associated : Bytes
    pub binds : associated_data printable (unsealed s) ≡ ok associated
    pub ciphertext : Bytes
    pub encrypts : c.aead_encrypt s.suite derived.0 derived.1 plaintext associated ≡ ok ciphertext
    pub writes : to_bytes printable (sealed s ciphertext) ≡ ok packet

  packet_of_sound :
      (s : SessionState) (plaintext packet : Bytes)
      → packet_of c printable s plaintext ≡ ok packet
      → Sent s plaintext packet
  unfolding packet_of
  packet_of_sound s plaintext packet h =
      let (u1, _, h1) =
        bind-eq-ok (require (leb (length plaintext) max_plaintext_bytes) value_error) _ h in
      let (u2, _, h2) =
        bind-eq-ok (require (not (ltb_ℤ (pos max_message_sequence) s.send_sequence)) overflow_error)
          _ h1 in
      let (n, hn, h3) = bind-eq-ok (validate_message_sequence (int s.send_sequence)) _ h2 in
      let (d, hd, h4) =
        bind-eq-ok
          (derive_message_key c s.root_key (int s.send_sequence) (suite_name s.suite)
            s.local_ephemeral_public_bytes s.remote_ephemeral_public_bytes)
          _ h3 in
      let (a, ha, h5) = bind-eq-ok (associated_data printable (unsealed s)) _ h4 in
      let (box, hb, h6) = bind-eq-ok (c.aead_encrypt s.suite d.0 d.1 plaintext a) _ h5 in
      let (numbered, in_range) = validate_message_sequence_sound (int s.send_sequence) n hn in
      record {
        number = n;
        numbered = numbered;
        in_range = in_range;
        derived = d;
        derives = hd;
        associated = a;
        binds = ha;
        ciphertext = box;
        encrypts = hb;
        writes = h6;
      }

  counted-eq-ok :
      (r : Result Bytes) (s s' : SessionState) (packet : Bytes)
      → counted r s ≡ (ok packet, s')
      → (r ≡ ok packet) × (s' ≡ record s { send_sequence = next_sequence s.send_sequence })
  counted-eq-ok (ok p) s s' packet h = (ap (λ x. x.0) h, sym (ap (λ x. x.1) h))
  counted-eq-ok (err e) s s' packet h = absurd (cc (ap (λ x. x.0) h))

  pub encrypt_sound :
      (s s' : SessionState) (plaintext packet : Bytes)
      → encrypt c printable (bytes plaintext) s ≡ (ok packet, s')
      → Sent s plaintext packet × (s' ≡ record s { send_sequence = next_sequence s.send_sequence })
  unfolding encrypt
  encrypt_sound s s' plaintext packet h =
      let (made, next) = counted-eq-ok (packet_of c printable s plaintext) s s' packet h in
      (packet_of_sound s plaintext packet made, next)

  module _ (correct : Correct c) (s : SessionState) (plaintext packet : Bytes)
      (are_bytes : AreBytes plaintext) (sent : Sent s plaintext packet) where
    pub envelope_read : from_bytes printable (bytes packet) ≡ ok (sealed s sent.ciphertext)
    envelope_read =
        (from_bytes_iff_to_bytes printable (sealed s sent.ciphertext) packet (
            correct.encrypt_bytes s.suite _ _ plaintext sent.associated sent.ciphertext are_bytes
              sent.encrypts)).1
          sent.writes

    addressed_ok :
        (next : ℤ) (w : ReplayWindow)
        → addressed c printable (peer s next w) (bytes packet) ≡ ok (sealed s sent.ciphertext)
    unfolding addressed
    addressed_ok next w =
        rw
          (
            envelope_read,
            list_eq_refl (suite_name s.suite),
            list_eq_refl s.remote_name,
            list_eq_refl s.local_name,
          )
          refl

    associated_ok : associated_data printable (sealed s sent.ciphertext) ≡ ok sent.associated
    unfolding associated_data validate_metadata
    associated_ok = sent.binds

    authenticate_ok :
        (next : ℤ) (w : ReplayWindow)
        → authenticate c printable (peer s next w) (sealed s sent.ciphertext) ≡ ok plaintext
    unfolding authenticate
    authenticate_ok next w =
        rw (sent.derives, associated_ok)
          (correct.decrypt-encrypt s.suite sent.derived.0 sent.derived.1 plaintext sent.associated
            sent.ciphertext sent.encrypts)

    decrypt_ok :
        (next : ℤ) (w : ReplayWindow) (n : ℕ)
        → check w (int s.send_sequence) ≡ ok n
        → decrypt c printable (bytes packet) (peer s next w)
          ≡ (ok plaintext, peer s next (record_seen n w))
    unfolding decrypt authenticate_and_record
    decrypt_ok next w n fresh = rw (addressed_ok next w, fresh, authenticate_ok next w) refl

  -- Over primitives that decrypt what they encrypted and encrypt bytes to bytes, for a plaintext of
  -- bytes: if `encrypt` returned a packet, and its number is one that the other side's window accepts,
  -- then `decrypt` of the other side returns the plaintext, and of its session only the window changes,
  -- by that number; of the sender's session only the next number changed, by one.
  pub delivery :
      (s s' : SessionState) (plaintext packet : Bytes) (next : ℤ) (w : ReplayWindow) (n : ℕ)
      → Correct c
      → AreBytes plaintext
      → encrypt c printable (bytes plaintext) s ≡ (ok packet, s')
      → check w (int s.send_sequence) ≡ ok n
      → (decrypt c printable (bytes packet) (peer s next w)
          ≡ (ok plaintext, peer s next (record_seen n w)))
        × (s' ≡ record s { send_sequence = pos (suc n) })
  delivery s s' plaintext packet next w n correct are_bytes h fresh =
      let (sent, counts) = encrypt_sound s s' plaintext packet h in
      let (same, _) = check_number w (int s.send_sequence) n fresh in
      let number : s.send_sequence ≡ pos n = cc same in
      (
        decrypt_ok correct s plaintext packet are_bytes sent next w n fresh,
        counts ∙ ap (λ k. record s { send_sequence = next_sequence k }) number,
      )
