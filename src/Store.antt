-- ===== src/Store.antt =====
-- src/cyphersyntax/store.py: an object of JSON in one encrypted file. The bytes of `os.urandom` are
-- arguments, and so are the outcomes of the system calls.
pub mod Roundtrip
pub mod Raises
pub mod Checks
pub mod Durable
use mathlib.Core.Option
use cypher_syntax.Py.Result.{
  Error, Result, ok, err, type_error, value_error, invalid_tag, store_error, persistence_error,
  require, ◌>>=◌, ◌>>◌,
}
use cypher_syntax.Py.Exec.{Exec, reading, then_run}
use cypher_syntax.Py.Value.{Value, bytes, object, Text, Bytes}
use cypher_syntax.Py.Text.{ascii, utf8}
use cypher_syntax.Py.Utf8.{decode}
use cypher_syntax.Json.Parse.{loads}
use cypher_syntax.Json.Object.{parsed}
use cypher_syntax.Json.Datum.{
  Datum, Entries, Interpreter, key_str, py_dict, no_key, entry, dumps, of_value, nesting,
}
use cypher_syntax.Crypto.{Crypto, AeadSuite, aes_gcm_siv}
use cypher_syntax.Files.{Disk, read_bytes}
use cypher_syntax.Persistence.{Faults, Run, validate_passphrase, atomic_write}
use cypher_syntax.Prelude.{
  ℕ, zero, suc, ◌+◌, ◌-◌, ◌*◌, ◌/◌, ◌%◌, ◌^◌, ◌≤◌, ◌<◌, ◌≡◌, refl, sym, ap, ◌∙◌, ◌≢◌, ◌↔◌, ◌⊎◌, inl,
  inr, Bool, true, false, not, ◌&&◌, ◌||◌, Option, none, some, List, [], ◌∷◌, ◌++◌, map,
  append_assoc, append-nil, arith, ltb, leb, ◌==◌, if◌then◌else◌, ==_iff, ==_refl, Bool-cases, ℤ,
  pos, negsuc, pos_part, neg_part, ◌-ℤ◌, ◌≤ℤ◌, ◌<ℤ◌, leb_ℤ, ltb_ℤ, int-cases, length, take, drop,
  replicate, keep, length-append, length-take, length-drop, length-replicate, All, contains,
  contains-keep, Distinct, list_eq, list_eq_refl, eq_of_list_eq, list_eq_iff,
}

abbrev pub store_magic : Bytes
store_magic = ascii "CypherSyntax/store"

abbrev pub store_version : ℕ
store_version = 1

abbrev pub store_salt_bytes : ℕ
store_salt_bytes = 16

abbrev pub store_nonce_bytes : ℕ
store_nonce_bytes = 12

abbrev pub store_tag_bytes : ℕ
store_tag_bytes = 16

abbrev pub max_store_plaintext_bytes : ℕ
max_store_plaintext_bytes = 1048576

-- `_STORE_HEADER`, which is the associated data too
abbrev pub store_header : Bytes
store_header = store_magic ++ store_version ∷ []

abbrev pub store_fixed_bytes : ℕ
store_fixed_bytes = length store_header + store_salt_bytes + store_nonce_bytes

abbrev pub max_store_file_bytes : ℕ
max_store_file_bytes = store_fixed_bytes + max_store_plaintext_bytes + store_tag_bytes

-- `except (TypeError, ValueError, UnicodeEncodeError) as exc: raise StoreError`
abbrev pub as_store_error {ℓ} : {A : Type ℓ} → Result A → Result A
as_store_error (err type_error) = err store_error
as_store_error (err value_error) = err store_error
as_store_error r = r

-- the test of the keys in front of `json.dumps`
abbrev pub are_texts : Entries → Bool
are_texts no_key = true
are_texts (entry (key_str t) d entries) = are_texts entries
are_texts (entry _ d entries) = false

-- `except PersistenceError as exc: raise StoreError`
abbrev pub storing {ℓ} : {A : Type ℓ} → Result A → Result A
storing (err persistence_error) = err store_error
storing r = r

-- `blob[i]`, where it is in range
abbrev pub byte_at : ℕ → Bytes → Option ℕ
byte_at i [] = none
byte_at zero (b ∷ bs) = some b
byte_at (suc i) (b ∷ bs) = byte_at i bs

abbrev pub is_version : Option ℕ → Bool
is_version none = false
is_version (some v) = v == store_version

abbrev pub starts_with : Bytes → Bytes → Bool
starts_with prefix bs = list_eq (take (length prefix) bs) prefix

-- `type(raw) is not dict`
abbrev pub is_object : Value → Bool
is_object (object fields) = true
is_object _ = false

pub record EncryptedStore : Type 0 where
  pub path : Text
  pub passphrase : Bytes

-- `EncryptedStore(path, passphrase)`
unfoldable pub make_store : Text → Value → Result EncryptedStore
make_store path passphrase = do
  p ← validate_passphrase passphrase
  ok (record { path = path; passphrase = p })

-- the bytes of the text that `json.dumps` returned, and their number tested
abbrev pub encoding : Result Text → Result Bytes
encoding text = do
  encoded ← as_store_error (text >>= utf8)
  require (leb (length encoded) max_store_plaintext_bytes) store_error
  ok encoded

module _ (python : Interpreter) where
  -- `_encode_object`: a RecursionError of `json.dumps` passes
  unfoldable pub encode_object : Datum → Result Bytes
  encode_object (py_dict entries) = do
    require (are_texts entries) type_error
    encoding (dumps python (py_dict entries))
  encode_object _ = err type_error

  -- the end of `load`, of the plaintext: a RecursionError of `json.loads` becomes a StoreError
  unfoldable pub decode_object : Bytes → Result Value
  decode_object plaintext = do
    require (leb (length plaintext) max_store_plaintext_bytes) store_error
    raw ← parsed store_error (Option.bind (decode plaintext) (λ t. loads false t))
    require (leb (nesting raw) (suc python.parse_levels)) store_error
    require (is_object raw) store_error
    encoded ← encode_object (of_value raw)
    require (list_eq encoded plaintext) store_error
    ok raw

  module _ (c : Crypto) (s : EncryptedStore) where
    -- `_derive_key`
    abbrev pub derive_key : Bytes → Result Bytes
    derive_key salt = do
      require (length salt == store_salt_bytes) store_error
      ok (c.scrypt salt s.passphrase)

    -- `save`, up to the blob; the salt and the nonce are drawn
    unfoldable pub seal_object : Datum → Bytes → Bytes → Result Bytes
    seal_object obj salt nonce = do
      plaintext ← encode_object obj
      key ← derive_key salt
      ciphertext ← c.aead_encrypt aes_gcm_siv key nonce plaintext store_header
      ok (store_header ++ (salt ++ (nonce ++ ciphertext)))

    -- `AESGCMSIV(key).decrypt(…)`, `except InvalidTag as exc: raise StoreError`
    abbrev pub authenticated : Result Bytes → Result Bytes
    authenticated (err invalid_tag) = err store_error
    authenticated r = r

    -- `load`, of the bytes of the file
    unfoldable pub open_blob : Bytes → Result Value
    open_blob blob = do
      require (leb (store_fixed_bytes + store_tag_bytes) (length blob)) store_error
      require (leb (length blob) max_store_file_bytes) store_error
      require (starts_with store_magic blob) store_error
      require (is_version (byte_at (length store_magic) blob)) store_error
      key ← derive_key (take store_salt_bytes (drop (length store_header) blob))
      plaintext ← authenticated (
          c.aead_decrypt aes_gcm_siv key
            (take store_nonce_bytes (drop (length store_header + store_salt_bytes) blob))
            (drop store_fixed_bytes blob) store_header)
      decode_object plaintext

    -- `load`, of what is found at the path: a file that is missing raises OSError
    abbrev pub open_found : Option Bytes → Result Value
    open_found none = err store_error
    open_found (some blob) = open_blob blob

    -- `save`
    unfoldable pub save : Faults → Text → Bytes → Bytes → Datum → Exec Run (Unit {0})
    save f drawn salt nonce obj r =
        then_run (seal_object obj salt nonce)
          (λ blob r.
            let (outcome, r') = atomic_write f s.path drawn (bytes blob) r in (storing outcome, r'))
          r

    -- `load`; the flag says that the read raises OSError
    abbrev pub load : Bool → Disk → Result Value
    load fails d = open_found (if fails then none else read_bytes d s.path)
