-- ===== src/Handshake/Codec.antt =====
-- The JSON encodings of the messages of src/cyphersyntax/handshake.py: `to_bytes` and `from_bytes`.
pub mod Reading
pub mod Offers
pub mod Responses
pub mod Confirmations
pub mod Kinds
use mathlib.Core.Option
use cypher_syntax.Py.Result.{
  Error, Result, ok, err, type_error, value_error, handshake_error, ◌>>=◌, ◌>>◌, require,
}
use cypher_syntax.Py.Value.{Value, Fields, int, str, bytes, object, end, field, Text, Bytes}
use cypher_syntax.Py.Text.{ascii, all_of, utf8}
use cypher_syntax.Py.Utf8.{decode}
use cypher_syntax.Py.Hex.{hex, from_hex, is_hex_digit}
use cypher_syntax.Json.Object.{has_all, only_among, lookup, parsed}
use cypher_syntax.Json.Parse.{loads, has_key}
use cypher_syntax.Json.Dump.{Member, text, number, dumps}
use cypher_syntax.Handshake.Messages.{
  HandshakeOffer, HandshakeResponse, HandshakeConfirmation, make_offer, make_response,
  make_confirmation,
}
use cypher_syntax.Prelude.{
  ℕ, zero, suc, ◌+◌, ◌-◌, ◌*◌, ◌/◌, ◌%◌, ◌^◌, ◌≤◌, ◌<◌, ◌≡◌, refl, sym, ap, ◌∙◌, ◌≢◌, ◌↔◌, ◌⊎◌, inl,
  inr, Bool, true, false, not, ◌&&◌, ◌||◌, Option, none, some, List, [], ◌∷◌, ◌++◌, map,
  append_assoc, append-nil, arith, ltb, leb, ◌==◌, if◌then◌else◌, ==_iff, ==_refl, Bool-cases, ℤ,
  pos, negsuc, pos_part, neg_part, ◌-ℤ◌, ◌≤ℤ◌, ◌<ℤ◌, leb_ℤ, ltb_ℤ, int-cases, length, take, drop,
  replicate, keep, length-append, length-take, length-drop, length-replicate, All, contains,
  contains-keep, Distinct, list_eq, list_eq_refl, eq_of_list_eq, list_eq_iff,
}

abbrev pub max_handshake_message_bytes : ℕ
max_handshake_message_bytes = 4096

-- `_COMMON_FIELDS | …`, for each kind of message
abbrev pub offer_fields : List Text
offer_fields =
    ascii "kind"
    ∷ ascii "v"
    ∷ ascii "suite"
    ∷ ascii "initiator"
    ∷ ascii "responder"
    ∷ ascii "initiator_ephemeral_public_key"
    ∷ ascii "initiator_signing_public_key"
    ∷ ascii "signature"
    ∷ []

abbrev pub response_fields : List Text
response_fields =
    offer_fields
    ++ ascii "responder_ephemeral_public_key"
      ∷ ascii "responder_signing_public_key"
      ∷ ascii "responder_key_confirmation"
      ∷ []

abbrev pub confirmation_fields : List Text
confirmation_fields =
    ascii "kind"
    ∷ ascii "v"
    ∷ ascii "suite"
    ∷ ascii "initiator"
    ∷ ascii "responder"
    ∷ ascii "initiator_ephemeral_public_key"
    ∷ ascii "responder_ephemeral_public_key"
    ∷ ascii "initiator_key_confirmation"
    ∷ ascii "signature"
    ∷ []

-- `_encode_message`
unfoldable pub encode_message : List (Text × Member) → Result Bytes
encode_message members = do
  encoded ← utf8 (dumps false members)
  require (leb (length encoded) max_handshake_message_bytes) handshake_error
  ok encoded

-- `type(raw["kind"]) is str and raw["kind"] == expected_kind`
abbrev pub is_kind : Text → Value → Bool
is_kind kind (str t) = list_eq t kind
is_kind kind _ = false

-- the tests of `_parse_message` behind `json.loads`
unfoldable pub expected_object : Text → List Text → Value → Result Fields
expected_object kind names (object fields) = do
  require (not (has_key (ascii "kind") fields) || is_kind kind (lookup (ascii "kind") fields))
      handshake_error
  require (has_all names fields) handshake_error
  require (only_among names fields) handshake_error
  ok fields
expected_object kind names _ = err handshake_error

-- `_parse_message`
unfoldable pub parse_message : Value → Text → List Text → Result Fields
parse_message (bytes encoding) kind names = do
  require (not (length encoding == 0)) handshake_error
  require (leb (length encoding) max_handshake_message_bytes) handshake_error
  raw ← parsed handshake_error (Option.bind (decode encoding) (λ t. loads false t))
  expected_object kind names raw
parse_message _ kind names = err handshake_error

-- `_decode_hex`
unfoldable pub decode_hex : Value → ℕ → Result Bytes
decode_hex (str digits) expected_length = do
  require (length digits == expected_length * 2) handshake_error
  require (all_of is_hex_digit digits) handshake_error
  ok (from_hex digits)
decode_hex _ expected_length = err handshake_error

-- `except (TypeError, ValueError) as exc: raise HandshakeError`
abbrev pub as_handshake_error {ℓ} : {A : Type ℓ} → Result A → Result A
as_handshake_error (ok a) = ok a
as_handshake_error (err type_error) = err handshake_error
as_handshake_error (err value_error) = err handshake_error
as_handshake_error (err e) = err e

-- `_construct_and_verify_canonical`, of a message or of the exception in its place
unfoldable pub verify_canonical : {M : Type 0} → Bytes → Result M → (M → Result Bytes) → Result M
verify_canonical encoding made encode = do
  message ← as_handshake_error made
  encoded ← encode message
  require (list_eq encoded encoding) handshake_error
  ok message

abbrev pub offer_members : HandshakeOffer → List (Text × Member)
offer_members o =
    (ascii "kind", text (ascii "offer"))
    ∷ (ascii "v", number (pos o.version))
    ∷ (ascii "suite", text o.suite)
    ∷ (ascii "initiator", text o.initiator)
    ∷ (ascii "responder", text o.responder)
    ∷ (ascii "initiator_ephemeral_public_key", text (hex o.initiator_ephemeral_public_key))
    ∷ (ascii "initiator_signing_public_key", text (hex o.initiator_signing_public_key))
    ∷ (ascii "signature", text (hex o.signature))
    ∷ []

abbrev pub response_members : HandshakeResponse → List (Text × Member)
response_members r =
    (ascii "kind", text (ascii "response"))
    ∷ (ascii "v", number (pos r.version))
    ∷ (ascii "suite", text r.suite)
    ∷ (ascii "initiator", text r.initiator)
    ∷ (ascii "responder", text r.responder)
    ∷ (ascii "initiator_ephemeral_public_key", text (hex r.initiator_ephemeral_public_key))
    ∷ (ascii "initiator_signing_public_key", text (hex r.initiator_signing_public_key))
    ∷ (ascii "responder_ephemeral_public_key", text (hex r.responder_ephemeral_public_key))
    ∷ (ascii "responder_signing_public_key", text (hex r.responder_signing_public_key))
    ∷ (ascii "responder_key_confirmation", text (hex r.responder_key_confirmation))
    ∷ (ascii "signature", text (hex r.signature))
    ∷ []

abbrev pub confirmation_members : HandshakeConfirmation → List (Text × Member)
confirmation_members n =
    (ascii "kind", text (ascii "confirmation"))
    ∷ (ascii "v", number (pos n.version))
    ∷ (ascii "suite", text n.suite)
    ∷ (ascii "initiator", text n.initiator)
    ∷ (ascii "responder", text n.responder)
    ∷ (ascii "initiator_ephemeral_public_key", text (hex n.initiator_ephemeral_public_key))
    ∷ (ascii "responder_ephemeral_public_key", text (hex n.responder_ephemeral_public_key))
    ∷ (ascii "initiator_key_confirmation", text (hex n.initiator_key_confirmation))
    ∷ (ascii "signature", text (hex n.signature))
    ∷ []

-- `HandshakeOffer.to_bytes`, `HandshakeResponse.to_bytes`, `HandshakeConfirmation.to_bytes`
abbrev pub offer_to_bytes : HandshakeOffer → Result Bytes
offer_to_bytes o = encode_message (offer_members o)

abbrev pub response_to_bytes : HandshakeResponse → Result Bytes
response_to_bytes r = encode_message (response_members r)

abbrev pub confirmation_to_bytes : HandshakeConfirmation → Result Bytes
confirmation_to_bytes n = encode_message (confirmation_members n)

-- `from_bytes` of each kind: the fields decoded, the constructor called on them, the encoding tested.
-- Hexadecimal is decoded before the constructor is called, so its result stands inside.
unfoldable pub read_message :
    {M : Type 0}
    → Value
    → Text
    → List Text
    → (Fields → Result (Result M))
    → (M → Result Bytes)
    → Result M
read_message (bytes encoding) kind names construct encode = do
  raw ← parse_message (bytes encoding) kind names
  made ← construct raw
  verify_canonical encoding made encode
read_message _ kind names construct encode = err handshake_error

module _ (printable : ℕ → Bool) where
  unfoldable pub construct_offer : Fields → Result (Result HandshakeOffer)
  construct_offer raw = do
    ie ← decode_hex (lookup (ascii "initiator_ephemeral_public_key") raw) 32
    is ← decode_hex (lookup (ascii "initiator_signing_public_key") raw) 32
    s ← decode_hex (lookup (ascii "signature") raw) 64
    ok (
        make_offer printable (lookup (ascii "v") raw) (lookup (ascii "suite") raw)
          (lookup (ascii "initiator") raw) (lookup (ascii "responder") raw) (bytes ie) (bytes is)
          (bytes s))

  unfoldable pub construct_response : Fields → Result (Result HandshakeResponse)
  construct_response raw = do
    ie ← decode_hex (lookup (ascii "initiator_ephemeral_public_key") raw) 32
    is ← decode_hex (lookup (ascii "initiator_signing_public_key") raw) 32
    re ← decode_hex (lookup (ascii "responder_ephemeral_public_key") raw) 32
    rs ← decode_hex (lookup (ascii "responder_signing_public_key") raw) 32
    c ← decode_hex (lookup (ascii "responder_key_confirmation") raw) 32
    s ← decode_hex (lookup (ascii "signature") raw) 64
    ok (
        make_response printable (lookup (ascii "v") raw) (lookup (ascii "suite") raw)
          (lookup (ascii "initiator") raw) (lookup (ascii "responder") raw) (bytes ie) (bytes is)
          (bytes re) (bytes rs) (bytes c) (bytes s))

  unfoldable pub construct_confirmation : Fields → Result (Result HandshakeConfirmation)
  construct_confirmation raw = do
    ie ← decode_hex (lookup (ascii "initiator_ephemeral_public_key") raw) 32
    re ← decode_hex (lookup (ascii "responder_ephemeral_public_key") raw) 32
    c ← decode_hex (lookup (ascii "initiator_key_confirmation") raw) 32
    s ← decode_hex (lookup (ascii "signature") raw) 64
    ok (
        make_confirmation printable (lookup (ascii "v") raw) (lookup (ascii "suite") raw)
          (lookup (ascii "initiator") raw) (lookup (ascii "responder") raw) (bytes ie) (bytes re)
          (bytes c) (bytes s))

  -- `HandshakeOffer.from_bytes`, `HandshakeResponse.from_bytes`, `HandshakeConfirmation.from_bytes`
  abbrev pub offer_from_bytes : Value → Result HandshakeOffer
  offer_from_bytes input =
      read_message input (ascii "offer") offer_fields construct_offer offer_to_bytes

  abbrev pub response_from_bytes : Value → Result HandshakeResponse
  response_from_bytes input =
      read_message input (ascii "response") response_fields construct_response response_to_bytes

  abbrev pub confirmation_from_bytes : Value → Result HandshakeConfirmation
  confirmation_from_bytes input =
      read_message input (ascii "confirmation") confirmation_fields construct_confirmation
        confirmation_to_bytes
