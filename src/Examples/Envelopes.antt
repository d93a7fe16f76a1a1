-- ===== src/Examples/Envelopes.antt =====
-- An envelope from alice to bob, and one to carol.
use cypher_syntax.Py.Result.{ok}
use cypher_syntax.Py.Value.{int, str, bytes, Bytes}
use cypher_syntax.Py.Text.{ascii, utf8, strip, is_space, decimal, digits}
use cypher_syntax.Py.Utf8.{encode}
use cypher_syntax.Py.Hex.{HoldsBytes, hex}
use cypher_syntax.Protocol.{validate_message_sequence}
use cypher_syntax.Names.{validate_name}
use cypher_syntax.Json.Strings.{escape, escape_char}
use cypher_syntax.Json.Numbers.{int_text}
use cypher_syntax.Json.Dump.{dumps}
use cypher_syntax.Wire.{
  MessageEnvelope, validate_metadata, validate_complete, validate_protocol_version,
  validate_suite_name, validate_ciphertext, associated_data, to_bytes, from_bytes,
}
use cypher_syntax.Wire.Roundtrip.{from_bytes_iff_to_bytes}
use cypher_syntax.Wire.AssociatedData.{associated_data-injective}
use cypher_syntax.Prelude.{
  ℕ, ◌≡◌, refl, ◌↔◌, Bool, ◌&&◌, [], ◌∷◌, ◌++◌, arith, ltb, leb, pos, replicate,
}

abbrev visible : ℕ → Bool
visible c = leb 32 c && ltb c 127

abbrev envelope : MessageEnvelope
envelope = record {
  version = int (pos 1);
  suite = str (ascii "AES_GCM_SIV");
  sender = str (ascii "alice");
  recipient = str (ascii "bob");
  sequence = int (pos 30);
  ciphertext = bytes (replicate 15 0 ++ 171 ∷ []);
}

abbrev encoding : Bytes
encoding =
    ascii
      "{\"ciphertext\":\"000000000000000000000000000000ab\",\"recipient\":\"bob\",\"sender\":\"alice\",\"sequence\":30,\"suite\":\"AES_GCM_SIV\",\"v\":1}"

-- the same with a blank
abbrev spaced : Bytes
spaced =
    ascii
      "{ \"ciphertext\":\"000000000000000000000000000000ab\",\"recipient\":\"bob\",\"sender\":\"alice\",\"sequence\":30,\"suite\":\"AES_GCM_SIV\",\"v\":1}"

written : to_bytes visible envelope ≡ ok encoding
unfolding to_bytes validate_complete validate_metadata validate_protocol_version validate_suite_name
    validate_name validate_message_sequence validate_ciphertext dumps escape int_text decimal digits
    utf8 encode strip is_space hex escape_char
written = refl

ciphertext_bytes : HoldsBytes envelope.ciphertext
ciphertext_bytes = ground arith

read : from_bytes visible (bytes encoding) ≡ ok envelope
read = (from_bytes_iff_to_bytes visible envelope encoding ciphertext_bytes).1 written

from_bytes_iff_to_bytes_example :
    (from_bytes visible (bytes encoding) ≡ ok envelope) ↔ (to_bytes visible envelope ≡ ok encoding)
from_bytes_iff_to_bytes_example = from_bytes_iff_to_bytes visible envelope encoding ciphertext_bytes

-- the same metadata around another ciphertext
abbrev other : MessageEnvelope
other = record envelope { ciphertext = bytes (replicate 40 7) }

abbrev associated : Bytes
associated =
    ascii
      "{\"recipient\":\"bob\",\"sender\":\"alice\",\"sequence\":30,\"suite\":\"AES_GCM_SIV\",\"v\":1}"

associated_data_written : associated_data visible other ≡ ok associated
unfolding associated_data validate_metadata validate_protocol_version validate_suite_name
    validate_name validate_message_sequence dumps escape int_text decimal digits utf8 encode strip
    is_space escape_char
associated_data_written = refl

associated_data-injective_example :
    (envelope.version ≡ other.version)
    × (envelope.suite ≡ other.suite)
    × (envelope.sender ≡ other.sender)
    × (envelope.recipient ≡ other.recipient)
    × (envelope.sequence ≡ other.sequence)
associated_data-injective_example =
    associated_data-injective visible envelope other associated
      (unfold associated_data validate_metadata in associated_data_written) associated_data_written
