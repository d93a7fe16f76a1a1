-- ===== src/Session/Messages.antt =====
-- `SessionState.encrypt` and `SessionState.decrypt` of src/cyphersyntax/session.py.
use cypher_syntax.Py.Result.{
  Result, ok, err, type_error, value_error, overflow_error, ◌>>=◌, ◌>>◌, require,
}
use cypher_syntax.Py.Exec.{Exec, reading}
use cypher_syntax.Py.Value.{Value, int, str, bytes, Text, Bytes}
use cypher_syntax.Protocol.{
  protocol_version, max_message_sequence, max_plaintext_bytes, validate_message_sequence,
}
use cypher_syntax.Crypto.{Crypto, suite_name}
use cypher_syntax.Kdf.{derive_message_key}
use cypher_syntax.Replay.{ReplayWindow, authenticate_and_record}
use cypher_syntax.Wire.{MessageEnvelope, associated_data, to_bytes, from_bytes}
use cypher_syntax.Session.State.{SessionState}
use cypher_syntax.Prelude.{
  ℕ, zero, suc, Bool, false, not, [], leb, ◌==◌, ℤ, pos, negsuc, ltb_ℤ, length, list_eq,
}

-- `envelope.version != PROTOCOL_VERSION` and the like, of attributes that are values
abbrev is_protocol_version : Value → Bool
is_protocol_version (int (pos n)) = n == protocol_version
is_protocol_version _ = false

abbrev is_text : Value → Text → Bool
is_text (str t) expected = list_eq t expected
is_text _ expected = false

-- `self.send_sequence += 1`
abbrev pub next_sequence : ℤ → ℤ
next_sequence (pos n) = pos (suc n)
next_sequence (negsuc zero) = pos 0
next_sequence (negsuc (suc n)) = negsuc n

-- a packet that was made counts; an exception leaves all as it was
abbrev pub counted : Result Bytes → SessionState → Result Bytes × SessionState
counted (ok packet) self =
    (ok packet, record self { send_sequence = next_sequence self.send_sequence })
counted (err e) self = (err e, self)

-- the envelope, its ciphertext still empty
abbrev pub unsealed : SessionState → MessageEnvelope
unsealed self = record {
  version = int (pos protocol_version);
  suite = str (suite_name self.suite);
  sender = str self.local_name;
  recipient = str self.remote_name;
  sequence = int self.send_sequence;
  ciphertext = bytes [];
}

-- what an operation left of the window goes into the session
abbrev pub with_window : SessionState → Result Bytes × ReplayWindow → Result Bytes × SessionState
with_window self (outcome, window) = (outcome, record self { replay_window = window })

module _ (c : Crypto) (printable : ℕ → Bool) where
  -- the packet of a plaintext
  unfoldable pub packet_of : SessionState → Bytes → Result Bytes
  packet_of self plaintext = do
    require (leb (length plaintext) max_plaintext_bytes) value_error
    require (not (ltb_ℤ (pos max_message_sequence) self.send_sequence)) overflow_error
    validate_message_sequence (int self.send_sequence)
    derived ←
        derive_message_key c self.root_key (int self.send_sequence) (suite_name self.suite)
          self.local_ephemeral_public_bytes self.remote_ephemeral_public_bytes
    associated ← associated_data printable (unsealed self)
    ciphertext ← c.aead_encrypt self.suite derived.0 derived.1 plaintext associated
    to_bytes printable (record (unsealed self) { ciphertext = bytes ciphertext })

  -- `SessionState.encrypt`
  unfoldable pub encrypt : Value → Exec SessionState Bytes
  encrypt (bytes plaintext) self = counted (packet_of self plaintext) self
  encrypt _ self = (err type_error, self)

  -- the tests of `decrypt` in front of the window
  unfoldable pub addressed : SessionState → Value → Result MessageEnvelope
  addressed self blob = do
    envelope ← from_bytes printable blob
    require (is_protocol_version envelope.version) value_error
    require (is_text envelope.suite (suite_name self.suite)) value_error
    require (is_text envelope.recipient self.local_name) value_error
    require (is_text envelope.sender self.remote_name) value_error
    ok envelope

  -- of the envelopes that `from_bytes` returns, each has bytes
  abbrev pub open_box : SessionState → Bytes × Bytes → Bytes → Value → Result Bytes
  open_box self derived associated (bytes ciphertext) =
      c.aead_decrypt self.suite derived.0 derived.1 ciphertext associated
  open_box self derived associated _ = err type_error

  -- `authenticate` inside `decrypt`
  unfoldable pub authenticate : SessionState → MessageEnvelope → Result Bytes
  authenticate self envelope = do
    derived ←
        derive_message_key c self.root_key envelope.sequence (suite_name self.suite)
          self.remote_ephemeral_public_bytes self.local_ephemeral_public_bytes
    associated ← associated_data printable envelope
    open_box self derived associated envelope.ciphertext

  abbrev pub receive : Result MessageEnvelope → Exec SessionState Bytes
  receive (err e) self = (err e, self)
  receive (ok envelope) self = with_window self (
      authenticate_and_record envelope.sequence (reading (λ _. authenticate self envelope))
        self.replay_window)

  -- `SessionState.decrypt`
  unfoldable pub decrypt : Value → Exec SessionState Bytes
  decrypt blob self = receive (addressed self blob) self
