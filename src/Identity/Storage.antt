-- ===== src/Identity/Storage.antt =====
-- src/cyphersyntax/identity.py: an identity in its encrypted file.
use cypher_syntax.Py.Result.{Result, ok, err, store_error, identity_error, require, ◌>>=◌, ◌>>◌}
use cypher_syntax.Py.Exec.{Exec, then_run}
use cypher_syntax.Py.Value.{Value, str, object, end, field, Text, Bytes}
use cypher_syntax.Py.Text.{ascii, all_of, utf8}
use cypher_syntax.Py.Hex.{hex, from_hex, is_hex_digit}
use cypher_syntax.Json.Object.{has_all, only_among, lookup}
use cypher_syntax.Crypto.{Crypto}
use cypher_syntax.Files.{Disk}
use cypher_syntax.Persistence.{Faults, Run, validate_passphrase}
use cypher_syntax.Json.Datum.{Interpreter, of_value}
use cypher_syntax.Store
use cypher_syntax.Store.{make_store}
use cypher_syntax.Identity.{Identity, validate_identity_name, make_identity}
use cypher_syntax.Prelude.{
  ℕ, ◌*◌, Bool, false, not, ◌&&◌, List, [], ◌∷◌, ◌++◌, ◌==◌, length, list_eq,
}

abbrev pub identity_format : Text
identity_format = ascii "CypherSyntax/identity/v1"

-- `_IDENTITY_FIELDS`
abbrev pub identity_fields : List Text
identity_fields =
    ascii "format" ∷ ascii "name" ∷ ascii "ed25519_private_key" ∷ ascii "x25519_private_key" ∷ []

abbrev pub private_key_bytes : ℕ
private_key_bytes = 32

-- `value == text` of any value
abbrev pub is_text : Text → Value → Bool
is_text expected (str t) = list_eq t expected
is_text expected _ = false

-- `_decode_private_key`
unfoldable pub decode_private_key : Value → Result Bytes
decode_private_key (str digits) = do
  require (length digits == private_key_bytes * 2) identity_error
  require (not (length digits == 0) && all_of is_hex_digit digits) identity_error
  ok (from_hex digits)
decode_private_key _ = err identity_error

-- `_storage_payload`
abbrev pub storage_payload : Identity → Value
storage_payload i = object (
    field (ascii "format") (str identity_format) (
      field (ascii "name") (str i.name) (
        field (ascii "ed25519_private_key") (str (hex i.signing_private_key))
          (field (ascii "x25519_private_key") (str (hex i.exchange_private_key)) end))))

-- `except StoreError as exc: raise IdentityError`
abbrev pub as_identity_error {ℓ} : {A : Type ℓ} → Result A → Result A
as_identity_error (err store_error) = err identity_error
as_identity_error r = r

module _ (c : Crypto) where
  -- `_identity_filename`
  unfoldable pub identity_filename : Text → Result Text
  identity_filename name = do
    encoded ← utf8 name
    ok (ascii "identity-" ++ (hex (c.sha256 encoded) ++ ascii ".bin"))

  module _ (printable : ℕ → Bool) where
    -- `storage_path(name, directory)`: the name in the directory
    unfoldable pub storage_path : Value → Result Text
    storage_path name = do text ← validate_identity_name printable name; identity_filename text

    -- the end of `load`, of the object that the store returned
    unfoldable pub from_raw : Text → Value → Result Identity
    from_raw name (object raw) = do
      require (has_all identity_fields raw && only_among identity_fields raw) identity_error
      require (is_text identity_format (lookup (ascii "format") raw)) identity_error
      require (is_text name (lookup (ascii "name") raw)) identity_error
      signing_raw ← decode_private_key (lookup (ascii "ed25519_private_key") raw)
      exchange_raw ← decode_private_key (lookup (ascii "x25519_private_key") raw)
      make_identity printable (str name) signing_raw exchange_raw
    from_raw name _ = err identity_error

    module _ (python : Interpreter) where
      -- the store of an identity, of its name and the passphrase
      unfoldable pub identity_store : Value → Value → Result Store.EncryptedStore
      identity_store name passphrase = do
        p ← validate_passphrase passphrase
        path ← storage_path name
        make_store path passphrase

      -- `save`
      unfoldable pub save : Faults → Text → Bytes → Bytes → Identity → Value → Exec Run (Unit {0})
      save f drawn salt nonce i passphrase r =
          then_run (identity_store (str i.name) passphrase)
            (λ s r.
              let (outcome, r') =
                Store.save python c s f drawn salt nonce (of_value (storage_payload i)) r in
              (as_identity_error outcome, r'))
            r

      -- `load`; the flag says that the read raises OSError
      unfoldable pub load : Bool → Disk → Value → Value → Result Identity
      load fails d name passphrase = do
        text ← validate_identity_name printable name
        s ← identity_store (str text) passphrase
        raw ← as_identity_error (Store.load python c s fails d)
        from_raw text raw
