-- ===== src/Protocol.antt =====
-- src/cyphersyntax/protocol.py: the limits, and the test of a message sequence number.
use cypher_syntax.Prelude.{
  ℕ, ◌+◌, ◌-◌, ◌*◌, ◌^◌, ◌≤◌, ◌≡◌, pos, leb_ℤ, pos_part, ◌&&◌, if◌then◌else◌, arith,
}
use cypher_syntax.Py.Result.{Result, ok, err, type_error, value_error}
use cypher_syntax.Py.Value.{Value, int}

abbrev pub protocol_version : ℕ
protocol_version = 1

abbrev pub max_message_sequence : ℕ
max_message_sequence = 2 ^ 64 - 1

abbrev pub max_protocol_version : ℕ
max_protocol_version = 2 ^ 16 - 1

abbrev pub max_participant_name_bytes : ℕ
max_participant_name_bytes = 255

abbrev pub max_suite_name_bytes : ℕ
max_suite_name_bytes = 64

abbrev pub max_plaintext_bytes : ℕ
max_plaintext_bytes = 1_048_576

abbrev pub aead_tag_bytes : ℕ
aead_tag_bytes = 16

abbrev pub max_ciphertext_bytes : ℕ
max_ciphertext_bytes = max_plaintext_bytes + aead_tag_bytes

abbrev pub max_envelope_bytes : ℕ
max_envelope_bytes = max_ciphertext_bytes * 2 + 4096

-- The source returns nothing; here the number that passed comes back, for the callers' use of it.
unfoldable pub validate_message_sequence : Value → Result ℕ
validate_message_sequence (int z) =
    if leb_ℤ (pos 0) z && leb_ℤ z (pos max_message_sequence)
    then ok (pos_part z)
    else err value_error
validate_message_sequence _ = err type_error

pub validate_message_sequence_in_range :
    (n : ℕ) → n ≤ max_message_sequence → validate_message_sequence (int (pos n)) ≡ ok n
unfolding validate_message_sequence
validate_message_sequence_in_range n h = ground arith

-- a number that passes is the argument itself, and fits in 64 bits
pub validate_message_sequence_sound :
    (v : Value) (n : ℕ)
    → validate_message_sequence v ≡ ok n
    → (v ≡ int (pos n)) × (n ≤ max_message_sequence)
unfolding validate_message_sequence
validate_message_sequence_sound (int z) n h = ground arith
validate_message_sequence_sound _ n h = ground arith
