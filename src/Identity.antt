-- ===== src/Identity.antt =====
-- src/cyphersyntax/identity.py: the long-term keys of a participant.
pub mod Storage
pub mod Reload
pub mod Bounds
use cypher_syntax.Py.Result.{
  Result, ok, type_error, value_error, invalid_signature_error, ◌>>=◌, ◌>>◌, require,
}
use cypher_syntax.Py.Value.{Value, Text, Bytes}
use cypher_syntax.Py.Text.{ascii}
use cypher_syntax.Names.{validate_name}
use cypher_syntax.Crypto.{Crypto}
use cypher_syntax.Prelude.{ℕ, Bool, not, ◌||◌, Option, none, some, contains, list_eq}

-- a private key is its 32 raw bytes
pub record Identity : Type 0 where
  pub name : Text
  pub signing_private_key : Bytes
  pub exchange_private_key : Bytes

-- `name in {".", ".."} or "/" in name or "\\" in name`
abbrev pub is_path_component : Text → Bool
is_path_component name =
    list_eq name (ascii ".")
    || list_eq name (ascii "..")
    || contains name b'/'
    || contains name b'\\'

module _ (printable : ℕ → Bool) where
  -- `_validate_identity_name`
  unfoldable pub validate_identity_name : Value → Result Text
  validate_identity_name name = do
    text ← validate_name printable type_error value_error name
    require (not (is_path_component text)) value_error
    ok text

  -- `Identity(name, signing_private_key, exchange_private_key)`, with `__post_init__`; the types of
  -- the keys are those of the model
  unfoldable pub make_identity : Value → Bytes → Bytes → Result Identity
  make_identity name signing_key exchange_key = do
    text ← validate_identity_name name
    ok (record {
      name = text;
      signing_private_key = signing_key;
      exchange_private_key = exchange_key;
    })

  -- `Identity.generate(name)`: the two keys are drawn
  unfoldable pub generate : Value → Bytes → Bytes → Result Identity
  unfolding make_identity
  generate name signing_key exchange_key = make_identity name signing_key exchange_key

module _ (c : Crypto) where
  abbrev pub ed25519_public_bytes : Identity → Bytes
  ed25519_public_bytes i = c.ed25519_public i.signing_private_key

  abbrev pub x25519_public_bytes : Identity → Bytes
  x25519_public_bytes i = c.x25519_public i.exchange_private_key

  abbrev pub sign : Identity → Bytes → Bytes
  sign i message = c.ed25519_sign i.signing_private_key message

  -- `Identity.verify_signature(data, signature, public_key)`
  abbrev pub verify_signature : Bytes → Bytes → Bytes → Result (Unit {0})
  verify_signature message signature public_key =
      require (c.ed25519_verify public_key signature message) invalid_signature_error

  -- `verify`: without a key the identity's own is used
  unfoldable pub verify : Identity → Bytes → Bytes → Option Bytes → Result (Unit {0})
  verify i message signature none = verify_signature message signature (ed25519_public_bytes i)
  verify i message signature (some key) = verify_signature message signature key
