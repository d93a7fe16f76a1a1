-- ===== src/Wire.antt =====
-- src/cyphersyntax/wire.py: the envelope of an encrypted message and its bytes. Its attributes may be
-- set to anything, so they are values; a validator gives back what it passed.
pub mod Roundtrip
pub mod AssociatedData
pub mod Validity
use mathlib.Core.Option
use cypher_syntax.Py.Result.{Result, ok, err, envelope_error, value_error, ◌>>=◌, ◌>>◌, require}
use cypher_syntax.Py.Value.{Value, Fields, int, str, bytes, object, end, field, null, Text, Bytes}
use cypher_syntax.Py.Text.{ascii, all_of, utf8}
use cypher_syntax.Py.Utf8.{decode}
use cypher_syntax.Py.Hex.{hex, from_hex, is_hex_digit}
use cypher_syntax.Protocol.{
  max_protocol_version, max_suite_name_bytes, max_ciphertext_bytes, max_envelope_bytes,
  aead_tag_bytes, validate_message_sequence,
}
use cypher_syntax.Names.{validate_name}
use cypher_syntax.Json.Object.{has_all, only_among, lookup, parsed}
use cypher_syntax.Json.Parse.{loads, has_key}
use cypher_syntax.Json.Dump.{Member, text, number, dumps}
use cypher_syntax.Prelude.{
  ℕ, zero, suc, ◌+◌, ◌-◌, ◌*◌, ◌/◌, ◌%◌, ◌^◌, ◌≤◌, ◌<◌, ◌≡◌, refl, sym, ap, ◌∙◌, ◌≢◌, ◌↔◌, ◌⊎◌, inl,
  inr, Bool, true, false, not, ◌&&◌, ◌||◌, Option, none, some, List, [], ◌∷◌, ◌++◌, map,
  append_assoc, append-nil, arith, ltb, leb, ◌==◌, if◌then◌else◌, ==_iff, ==_refl, Bool-cases, ℤ,
  pos, negsuc, pos_part, neg_part, ◌-ℤ◌, ◌≤ℤ◌, ◌<ℤ◌, leb_ℤ, ltb_ℤ, int-cases, length, take, drop,
  replicate, keep, length-append, length-take, length-drop, length-replicate, All, contains,
  contains-keep, Distinct, list_eq, list_eq_refl, eq_of_list_eq, list_eq_iff,
}

abbrev pub in_version_range : ℕ → Bool
in_version_range n = leb 1 n && leb n max_protocol_version

unfoldable pub validate_protocol_version : Value → Result ℕ
validate_protocol_version (int (pos n)) = if in_version_range n then ok n else err envelope_error
validate_protocol_version _ = err envelope_error

abbrev is_upper : ℕ → Bool
is_upper c = leb b'A' c && leb c b'Z'

-- `[A-Z0-9_]`
abbrev pub is_suite_char : ℕ → Bool
is_suite_char c = is_upper c || leb b'0' c && leb c b'9' || c == b'_'

-- `[A-Z][A-Z0-9_]*\Z`
abbrev pub matches_suite : Text → Bool
matches_suite [] = false
matches_suite (c ∷ suite) = is_upper c && all_of is_suite_char suite

unfoldable pub validate_suite_name : Value → Result Text
validate_suite_name (str suite) = do
  require (all_of (λ c. ltb c 128) suite) envelope_error
  require (not (length suite == 0) && leb (length suite) max_suite_name_bytes) envelope_error
  require (matches_suite suite) envelope_error
  ok suite
validate_suite_name _ = err envelope_error

unfoldable pub validate_ciphertext : Value → Result Bytes
validate_ciphertext (bytes ciphertext) = do
  require (leb aead_tag_bytes (length ciphertext)) envelope_error
  require (leb (length ciphertext) max_ciphertext_bytes) envelope_error
  ok ciphertext
validate_ciphertext _ = err envelope_error

-- `[0-9a-f]+\Z`
abbrev matches_hex : Text → Bool
matches_hex digits = not (length digits == 0) && all_of is_hex_digit digits

unfoldable pub decode_ciphertext : Value → Result Bytes
decode_ciphertext (str digits) = do
  require (length digits % 2 == 0) envelope_error
  require (matches_hex digits) envelope_error
  ok (from_hex digits)
decode_ciphertext _ = err envelope_error

pub record MessageEnvelope : Type 0 where
  pub version : Value
  pub suite : Value
  pub sender : Value
  pub recipient : Value
  pub sequence : Value
  pub ciphertext : Value

-- what `_validate_metadata` has passed
pub record Metadata : Type 0 where
  pub version : ℕ
  pub suite : Text
  pub sender : Text
  pub recipient : Text
  pub sequence : ℕ

-- `except (TypeError, ValueError) as exc: raise EnvelopeError`
abbrev pub as_envelope_error {ℓ} : {A : Type ℓ} → Result A → Result A
as_envelope_error (ok a) = ok a
as_envelope_error (err e) = err envelope_error

-- the members that the associated data and the encoding share
abbrev pub metadata_members : Metadata → List (Text × Member)
metadata_members m =
    (ascii "v", number (pos m.version))
    ∷ (ascii "suite", text m.suite)
    ∷ (ascii "sender", text m.sender)
    ∷ (ascii "recipient", text m.recipient)
    ∷ (ascii "sequence", number (pos m.sequence))
    ∷ []

abbrev pub envelope_members : Metadata → Bytes → List (Text × Member)
envelope_members m ciphertext =
    metadata_members m ++ (ascii "ciphertext", text (hex ciphertext)) ∷ []

-- `_ENVELOPE_FIELDS`
abbrev pub envelope_fields : List Text
envelope_fields =
    ascii "v"
    ∷ ascii "suite"
    ∷ ascii "sender"
    ∷ ascii "recipient"
    ∷ ascii "sequence"
    ∷ ascii "ciphertext"
    ∷ []

-- `type(raw) is not dict`, and the names of its fields
unfoldable pub exact_fields : Value → Result Fields
exact_fields (object fields) = do
  require (has_all envelope_fields fields) envelope_error
  require (only_among envelope_fields fields) envelope_error
  ok fields
exact_fields _ = err envelope_error

module _ (printable : ℕ → Bool) where
  -- `MessageEnvelope._validate_metadata`
  unfoldable pub validate_metadata : MessageEnvelope → Result Metadata
  validate_metadata e = do
    v ← validate_protocol_version e.version
    s ← validate_suite_name e.suite
    a ← validate_name printable envelope_error envelope_error e.sender
    b ← validate_name printable envelope_error envelope_error e.recipient
    require (not (list_eq a b)) envelope_error
    n ← as_envelope_error (validate_message_sequence e.sequence)
    ok (record { version = v; suite = s; sender = a; recipient = b; sequence = n })

  -- `MessageEnvelope._validate_complete`
  unfoldable pub validate_complete : MessageEnvelope → Result (Metadata × Bytes)
  validate_complete e = do m ← validate_metadata e; c ← validate_ciphertext e.ciphertext; ok (m, c)

  -- `MessageEnvelope.associated_data`
  unfoldable pub associated_data : MessageEnvelope → Result Bytes
  associated_data e = do m ← validate_metadata e; utf8 (dumps true (metadata_members m))

  -- `MessageEnvelope.to_bytes`
  unfoldable pub to_bytes : MessageEnvelope → Result Bytes
  to_bytes e = do
    parts ← validate_complete e
    encoded ← utf8 (dumps true (envelope_members parts.0 parts.1))
    require (leb (length encoded) max_envelope_bytes) envelope_error
    ok encoded

  -- `cls(…)` from the fields of the object, each tested on the way
  unfoldable pub from_fields : Fields → Result MessageEnvelope
  from_fields raw = do
    v ← validate_protocol_version (lookup (ascii "v") raw)
    s ← validate_suite_name (lookup (ascii "suite") raw)
    a ← validate_name printable envelope_error envelope_error (lookup (ascii "sender") raw)
    b ← validate_name printable envelope_error envelope_error (lookup (ascii "recipient") raw)
    c ← decode_ciphertext (lookup (ascii "ciphertext") raw)
    ok (record {
      version = int (pos v);
      suite = str s;
      sender = str a;
      recipient = str b;
      sequence = lookup (ascii "sequence") raw;
      ciphertext = bytes c;
    })

  -- `MessageEnvelope.from_bytes`
  unfoldable pub from_bytes : Value → Result MessageEnvelope
  from_bytes (bytes encoding) = do
    require (not (length encoding == 0)) envelope_error
    require (leb (length encoding) max_envelope_bytes) envelope_error
    raw ← parsed envelope_error (Option.bind (decode encoding) (λ t. loads true t))
    fields ← exact_fields raw
    envelope ← from_fields fields
    validate_complete envelope
    encoded ← to_bytes envelope
    require (list_eq encoded encoding) envelope_error
    ok envelope
  from_bytes _ = err envelope_error
