-- ===== src/Examples/Sessions.antt =====
-- A session of alice with bob: what alice encrypts, bob decrypts, once.
use cypher_syntax.Py.Result.{Error, Result, ok, err, replay_detected_error}
use cypher_syntax.Py.Value.{null, int, bytes, Bytes}
use cypher_syntax.Py.Text.{ascii, utf8, strip, is_space, decimal, digits}
use cypher_syntax.Py.Utf8.{encode}
use cypher_syntax.Py.Bytes
use cypher_syntax.Py.Hex.{hex, AreBytes}
use cypher_syntax.Protocol.{validate_message_sequence}
use cypher_syntax.Names.{validate_name}
use cypher_syntax.Crypto.{aes_gcm_siv, suite_name}
use cypher_syntax.Kdf.{
  length_prefixed, directional_info, message_info, derive_directional_secret, derive_message_key,
}
use cypher_syntax.Replay.{check, record_seen}
use cypher_syntax.Json.Strings.{escape, escape_char}
use cypher_syntax.Json.Numbers.{int_text}
use cypher_syntax.Json.Dump.{dumps}
use cypher_syntax.Wire.{
  MessageEnvelope, from_bytes, validate_metadata, validate_complete, validate_protocol_version,
  validate_suite_name, validate_ciphertext, associated_data, to_bytes,
}
use cypher_syntax.Session.State.{SessionState, default_window}
use cypher_syntax.Session.Messages.{addressed, packet_of, encrypt, decrypt}
use cypher_syntax.Session.Delivery.{peer, delivery}
use cypher_syntax.Session.Failures.{failure_changes_nothing}
use cypher_syntax.Session.Numbers.{numbers_increase}
use cypher_syntax.Session.Once.{after_use, Use, after_uses, decrypt_once}
use cypher_syntax.Examples.Toy.{toy, toy-Correct, is_visible, the_ok, fill, checksum, seal}
use cypher_syntax.Prelude.{ℕ, ◌<◌, ◌≡◌, refl, inl, List, [], ◌∷◌, arith, pos}

abbrev alice : SessionState
alice = record {
  local_name = ascii "alice";
  remote_name = ascii "bob";
  suite = aes_gcm_siv;
  root_key = 1 ∷ 2 ∷ 3 ∷ [];
  local_ephemeral_public_bytes = 4 ∷ [];
  remote_ephemeral_public_bytes = 5 ∷ [];
  send_sequence = pos 7;
  replay_window = default_window;
}

-- all that runs when a packet is made
runs : ℕ
unfolding validate_metadata validate_protocol_version validate_suite_name validate_name
    validate_message_sequence validate_ciphertext validate_complete dumps escape int_text decimal
    digits utf8 encode strip is_space escape_char hex length_prefixed directional_info message_info
    derive_directional_secret derive_message_key cypher_syntax.Py.Bytes.to_bytes suite_name
    associated_data to_bytes packet_of encrypt fill checksum seal
runs = 0

made : Result Bytes
made = (encrypt toy is_visible (bytes (ascii "hi")) alice).0

packet : Bytes
unfolding runs made
packet = the_ok made tt

encrypted :
    encrypt toy is_visible (bytes (ascii "hi")) alice
    ≡ (ok packet, record alice { send_sequence = pos 8 })
unfolding runs packet
encrypted = refl

fresh : check default_window (int (pos 7)) ≡ ok 7
unfolding check validate_message_sequence
fresh = refl

hi_bytes : AreBytes (ascii "hi")
hi_bytes = ground arith

delivery_example :
    (decrypt toy is_visible (bytes packet) (peer alice (pos 0) default_window)
      ≡ (ok (ascii "hi"), peer alice (pos 0) (record_seen 7 default_window)))
    × (record alice { send_sequence = pos 8 } ≡ record alice { send_sequence = pos 8 })
delivery_example =
    delivery toy is_visible alice (record alice { send_sequence = pos 8 }) (ascii "hi") packet
      (pos 0) default_window 7 toy-Correct hi_bytes encrypted fresh

abbrev uses : List Use
uses = Use.sending (bytes (ascii "answer")) ∷ Use.receiving (bytes packet) ∷ []

-- bob behind the first decryption
abbrev bob : SessionState
bob = peer alice (pos 0) (record_seen 7 default_window)

decrypt_once_example :
    decrypt toy is_visible (bytes packet) (after_uses toy is_visible uses bob)
    ≡ (err replay_detected_error, after_uses toy is_visible uses bob)
decrypt_once_example =
    decrypt_once toy is_visible (peer alice (pos 0) default_window) bob (bytes packet) (ascii "hi")
      uses delivery_example.0

-- a plaintext that is no bytes
refused : encrypt toy is_visible null alice ≡ (err Error.type_error, alice)
unfolding encrypt
refused = refl

failure_changes_nothing_example : alice ≡ alice
failure_changes_nothing_example =
    failure_changes_nothing toy is_visible null alice alice Error.type_error (inl refused)

-- alice behind the first packet
abbrev alice_next : SessionState
alice_next = record alice { send_sequence = pos 8 }

abbrev idle : List Use
idle = Use.sending null ∷ Use.receiving (bytes []) ∷ []

stayed : after_uses toy is_visible idle alice_next ≡ alice_next
unfolding after_uses after_use encrypt decrypt addressed from_bytes
stayed = refl

made_later : Result Bytes
made_later =
    (encrypt toy is_visible (bytes (ascii "ho")) (after_uses toy is_visible idle alice_next)).0

later : Bytes
unfolding runs made_later after_uses after_use decrypt addressed from_bytes
later = the_ok made_later tt

encrypted_later :
    encrypt toy is_visible (bytes (ascii "ho")) (after_uses toy is_visible idle alice_next)
    ≡ (ok later, record alice { send_sequence = pos 9 })
unfolding runs later
encrypted_later = refl

ho_bytes : AreBytes (ascii "ho")
ho_bytes = ground arith

numbers_increase_example :
    (e : MessageEnvelope) × (f : MessageEnvelope) × (n : ℕ) × (m : ℕ) × (from_bytes is_visible
        (bytes packet)
      ≡ ok e)
    × (from_bytes is_visible (bytes later) ≡ ok f)
    × (e.sequence ≡ int (pos n))
    × (f.sequence ≡ int (pos m))
    × (n < m)
numbers_increase_example =
    numbers_increase toy is_visible alice alice_next (record alice { send_sequence = pos 9 })
      (ascii "hi") (ascii "ho") packet later idle toy-Correct hi_bytes ho_bytes encrypted
      encrypted_later
