-- ===== src/Handshake/Fields.antt =====
-- The validators of src/cyphersyntax/handshake.py, the framing of fields, and the six terms that an
-- offer states and a response repeats. A validator gives back the value that passed, as the source's
-- validators do; `_validate_offer_fields`, which gives back nothing there, gives the six together.
use cypher_syntax.Py.Result.{Result, ok, err, type_error, value_error, ◌>>=◌, ◌>>◌, require}
use cypher_syntax.Py.Value.{Value, int, str, bytes, Text, Bytes}
use cypher_syntax.Py.Text.{ascii, utf8, decimal}
use cypher_syntax.Py.Bytes.{to_bytes}
use cypher_syntax.Protocol.{protocol_version}
use cypher_syntax.Names.{validate_name}
use cypher_syntax.Prelude.{
  ℕ, Bool, not, ◌||◌, List, [], ◌∷◌, ◌++◌, ◌==◌, if◌then◌else◌, pos, negsuc, length, list_eq,
}

abbrev pub x25519_public_key_length : ℕ
x25519_public_key_length = 32

abbrev pub ed25519_public_key_length : ℕ
ed25519_public_key_length = 32

abbrev pub ed25519_signature_length : ℕ
ed25519_signature_length = 64

abbrev pub key_confirmation_length : ℕ
key_confirmation_length = 32

unfoldable pub validate_version : Value → Result ℕ
validate_version (int (pos n)) = if n == protocol_version then ok n else err value_error
validate_version (int (negsuc n)) = err value_error
validate_version _ = err type_error

-- `in SUPPORTED_HANDSHAKE_SUITES`
abbrev pub is_supported_suite : Text → Bool
is_supported_suite suite =
    list_eq suite (ascii "AES_GCM_SIV") || list_eq suite (ascii "CHACHA20_POLY1305")

unfoldable pub validate_suite : Value → Result Text
validate_suite (str suite) = if is_supported_suite suite then ok suite else err value_error
validate_suite _ = err type_error

unfoldable pub validate_bytes : Value → ℕ → Result Bytes
validate_bytes (bytes value) expected_length =
    if length value == expected_length then ok value else err value_error
validate_bytes _ expected_length = err type_error

-- `_encode_field`
unfoldable pub encode_field : Bytes → Result Bytes
encode_field value = do prefix ← to_bytes (length value) 4; ok (prefix ++ value)

-- `b"".join(_encode_field(value) for each value)`
unfoldable pub encode_fields : List Bytes → Result Bytes
encode_fields [] = ok []
encode_fields (value ∷ values) = do
  first ← encode_field value
  rest ← encode_fields values
  ok (first ++ rest)

pub record Terms : Type 0 where
  pub version : ℕ
  pub suite : Text
  pub initiator : Text
  pub responder : Text
  pub initiator_ephemeral_public_key : Bytes
  pub initiator_signing_public_key : Bytes

-- `_handshake_context`, which an offer's signature covers
unfoldable pub handshake_context : Terms → Result Bytes
handshake_context t = do
  suite ← utf8 t.suite
  initiator ← utf8 t.initiator
  responder ← utf8 t.responder
  fields ← encode_fields (
      decimal t.version
      ∷ suite
      ∷ initiator
      ∷ responder
      ∷ t.initiator_ephemeral_public_key
      ∷ t.initiator_signing_public_key
      ∷ [])
  ok (ascii "CypherSyntax/handshake-offer/v1" ++ fields)

module _ (printable : ℕ → Bool) where
  unfoldable pub validate_participants : Value → Value → Result (Text × Text)
  validate_participants initiator responder = do
    i ← validate_name printable type_error value_error initiator
    r ← validate_name printable type_error value_error responder
    require (not (list_eq i r)) value_error
    ok (i, r)

  -- version, suite, initiator, responder, ephemeral key, signing key
  unfoldable pub validate_offer_fields :
      Value → Value → Value → Value → Value → Value → Result Terms
  validate_offer_fields version suite initiator responder ephemeral_key signing_key = do
    v ← validate_version version
    s ← validate_suite suite
    names ← validate_participants initiator responder
    e ← validate_bytes ephemeral_key x25519_public_key_length
    k ← validate_bytes signing_key ed25519_public_key_length
    ok (record {
      version = v;
      suite = s;
      initiator = names.0;
      responder = names.1;
      initiator_ephemeral_public_key = e;
      initiator_signing_public_key = k;
    })
