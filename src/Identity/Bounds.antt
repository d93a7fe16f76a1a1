-- ===== src/Identity/Bounds.antt =====
-- What is known of the file of an identity and of the identity that `load` returns.
use mathlib.Core.Path.{subst}
use cypher_syntax.Py.Result.{ok, identity_error, require, bind-eq-ok, require-eq-ok, ok-injective}
use cypher_syntax.Py.Value.{Value, str, object, Text, Bytes}
use cypher_syntax.Py.Text.{ascii, all_of, utf8, all_of_weaken}
use cypher_syntax.Py.Hex.{hex, from_hex, is_hex_digit, AreBytes, hex-all_digits, length-hex}
use cypher_syntax.Json.Object.{has_all, only_among, lookup}
use cypher_syntax.Crypto.{Crypto, Lengths}
use cypher_syntax.Files.{Disk}
use cypher_syntax.Json.Datum.{Interpreter}
use cypher_syntax.Store
use cypher_syntax.Identity.{Identity, validate_identity_name, make_identity}
use cypher_syntax.Identity.Storage.{
  identity_fields, identity_format, is_text, as_identity_error, decode_private_key,
  identity_filename, storage_path, from_raw, identity_store, load,
}
use cypher_syntax.Identity.Reload.{IsIdentity, identity-IsName_sound, str-injective}
use cypher_syntax.Prelude.{
  ℕ, zero, suc, ◌*◌, ◌≡◌, refl, sym, ap, ◌∙◌, Bool, true, not, ◌&&◌, ◌||◌, [], ◌∷◌, ◌++◌, arith,
  leb, ◌==◌, length, length-append,
}

-- a lower-case letter, a digit, a dash or a dot
abbrev pub is_file_char : ℕ → Bool
is_file_char c = leb b'a' c && leb c b'z' || leb b'0' c && leb c b'9' || c == b'-' || c == b'.'

all_of-append : (p : ℕ → Bool) (s t : Text) → all_of p (s ++ t) ≡ (all_of p s && all_of p t)
all_of-append p [] t = refl
all_of-append p (c ∷ s) t = ground (arith, all_of-append p s t)

from_hex-AreBytes : (t : Text) → all_of is_hex_digit t ≡ true → AreBytes (from_hex t)
unfolding from_hex
from_hex-AreBytes [] h = tt
from_hex-AreBytes (c ∷ []) h = tt
from_hex-AreBytes (c ∷ d ∷ t) h = (ground (arith, h), from_hex-AreBytes t (ground (arith, h)))

length-from_hex : (n : ℕ) (t : Text) → length t ≡ n * 2 → length (from_hex t) ≡ n
unfolding from_hex
length-from_hex zero [] h = refl
length-from_hex zero (c ∷ t) h = absurd (omega (arith, h))
length-from_hex (suc n) [] h = absurd (omega (arith, h))
length-from_hex (suc n) (c ∷ []) h = absurd (omega (arith, h))
length-from_hex (suc n) (c ∷ d ∷ t) h = ap suc (length-from_hex n t (omega (arith, h)))

decode_private_key_sound :
    (v : Value) (key : Bytes) → decode_private_key v ≡ ok key → AreBytes key × (length key ≡ 32)
unfolding decode_private_key
decode_private_key_sound (str t) key h =
    let (_, k1, h1) = bind-eq-ok (require (length t == 64) identity_error) _ h in
    let (_, k2, h2) =
      bind-eq-ok (require (not (length t == 0) && all_of is_hex_digit t) identity_error) _ h1 in
    let digits = require-eq-ok (not (length t == 0) && all_of is_hex_digit t) identity_error k2 in
    let sized = require-eq-ok (length t == 64) identity_error k1 in
    subst (λ k. AreBytes k × (length k ≡ 32)) (ok-injective h2)
      (from_hex-AreBytes t (ground (arith, digits)), length-from_hex 32 t (ground (arith, sized)))
decode_private_key_sound _ key h = absurd (cc)

module _ (c : Crypto) (lengths : Lengths c) (digest_bytes : (d : Bytes) → AreBytes (c.sha256 d))
    (printable : ℕ → Bool) where
  -- The file of an identity, whatever its name, has a name of 77 characters, each of them a lower-case
  -- letter, a digit, a dash or a dot: no name leads out of the directory.
  pub storage_path-IsSafe :
      (name : Value) (path : Text)
      → storage_path c printable name ≡ ok path
      → (length path ≡ 77) × (all_of is_file_char path ≡ true)
  unfolding storage_path identity_filename
  storage_path-IsSafe name path h =
      let (text, _, h1) = bind-eq-ok (validate_identity_name printable name) _ h in
      let (encoded, _, h2) = bind-eq-ok (utf8 text) _ h1 in
      subst (λ (p : Text). (length p ≡ 77) × (all_of is_file_char p ≡ true)) (ok-injective h2)
        (
          omega (
            arith,
            length-append (hex (c.sha256 encoded)) (ascii ".bin"),
            length-hex (c.sha256 encoded),
            lengths.sha256_length encoded,
          ),
          all_of-append is_file_char (hex (c.sha256 encoded)) (ascii ".bin")
              ∙ ground (
                arith,
                all_of_weaken is_hex_digit is_file_char (hex (c.sha256 encoded))
                    (λ d e. ground arith)
                    (hex-all_digits (c.sha256 encoded) (digest_bytes encoded)),
              ),
        )

module _ (c : Crypto) (printable : ℕ → Bool) (python : Interpreter) where
  make_identity_sound :
      (text : Text) (signing exchange : Bytes) (i : Identity)
      → AreBytes signing × (length signing ≡ 32)
      → AreBytes exchange × (length exchange ≡ 32)
      → make_identity printable (str text) signing exchange ≡ ok i
      → (i.name ≡ text) × IsIdentity printable i
  unfolding make_identity
  make_identity_sound text signing exchange i (sb, sl) (eb, el) h =
      let (name, k, h1) = bind-eq-ok (validate_identity_name printable (str text)) _ h in
      let same : text ≡ name =
        str-injective (identity-IsName_sound printable (str text) name k).0 in
      subst (λ (i : Identity). (i.name ≡ text) × IsIdentity printable i) (ok-injective h1)
        (
          sym same,
          record {
            named = ap (λ (t : Text). validate_identity_name printable (str t)) (sym same) ∙ k;
            signing_bytes = sb;
            signing_length = sl;
            exchange_bytes = eb;
            exchange_length = el;
          },
        )

  from_raw_sound :
      (text : Text) (raw : Value) (i : Identity)
      → from_raw c printable text raw ≡ ok i
      → (i.name ≡ text) × IsIdentity printable i
  unfolding from_raw
  from_raw_sound text (object raw) i h =
      let (_, _, h1) =
        bind-eq-ok
          (require (has_all identity_fields raw && only_among identity_fields raw) identity_error) _
          h in
      let (_, _, h2) =
        bind-eq-ok (require (is_text identity_format (lookup (ascii "format") raw)) identity_error)
          _ h1 in
      let (_, _, h3) =
        bind-eq-ok (require (is_text text (lookup (ascii "name") raw)) identity_error) _ h2 in
      let (signing, ks, h4) =
        bind-eq-ok (decode_private_key (lookup (ascii "ed25519_private_key") raw)) _ h3 in
      let (exchange, ke, h5) =
        bind-eq-ok (decode_private_key (lookup (ascii "x25519_private_key") raw)) _ h4 in
      make_identity_sound text signing exchange i (decode_private_key_sound _ signing ks)
        (decode_private_key_sound _ exchange ke) h5
  from_raw_sound text _ i h = absurd (cc)

  -- An identity that is loaded has the name that was asked for, which is one, and two keys of 32 bytes.
  pub load-IsIdentity :
      (fails : Bool) (d : Disk) (name : Text) (passphrase : Value) (i : Identity)
      → load c printable python fails d (str name) passphrase ≡ ok i
      → (i.name ≡ name) × IsIdentity printable i
  unfolding load
  load-IsIdentity fails d name passphrase i h =
      let (text, k, h1) = bind-eq-ok (validate_identity_name printable (str name)) _ h in
      let (s, _, h2) = bind-eq-ok (identity_store c printable python (str text) passphrase) _ h1 in
      let (raw, _, h3) = bind-eq-ok (as_identity_error (Store.load python c s fails d)) _ h2 in
      let same = str-injective (identity-IsName_sound printable (str name) text k).0 in
      let found = from_raw_sound text raw i h3 in (found.0 ∙ sym same, found.1)
