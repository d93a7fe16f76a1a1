-- ===== src/Examples/Identities.antt =====
-- An identity in its encrypted file.
use cypher_syntax.Py.Result.{ok}
use cypher_syntax.Py.Value.{Value, str, bytes, Text, Bytes}
use cypher_syntax.Py.Text.{all_of, ascii, utf8, decimal, digits, strip, is_space}
use cypher_syntax.Py.Utf8.{encode}
use cypher_syntax.Py.Hex.{hex}
use cypher_syntax.Json.Strings.{escape, escape_char, hex_digit}
use cypher_syntax.Json.Numbers.{int_text}
use cypher_syntax.Json.Datum.{sort_datum, write_datum, dumps, of_value}
use cypher_syntax.Names.{validate_name}
use cypher_syntax.Files.{
  make_file, write_file, sync_file, set_mode, set_mode_at, replace, unlink, sync_entries,
}
use cypher_syntax.Persistence.{validate_passphrase, atomic_write}
use cypher_syntax.Persistence.Atomic.{start}
use cypher_syntax.Store
use cypher_syntax.Store.{
  EncryptedStore, encode_object, seal_object, open_blob, open_found, store_magic, store_header,
  store_fixed_bytes, store_salt_bytes, store_nonce_bytes, store_tag_bytes, max_store_file_bytes,
  starts_with, is_version, byte_at, make_store,
}
use cypher_syntax.Identity.{Identity, validate_identity_name}
use cypher_syntax.Identity.Storage
use cypher_syntax.Identity.Storage.{identity_filename, storage_path, identity_store}
use cypher_syntax.Identity.Reload.{IsIdentity, identity_load-save}
use cypher_syntax.Identity.Bounds.{is_file_char, storage_path-IsSafe, load-IsIdentity}
use cypher_syntax.Examples.Toy.{
  toy, toy-digest_bytes, toy-Lengths, toy-Correct, is_visible, the_ok, the_ok_eq, fill, checksum,
  seal,
}
use cypher_syntax.Examples.Disks.{old_disk, old_disk-IsSound, no_faults}
use cypher_syntax.Prelude.{ℕ, ◌≡◌, refl, true, false, arith, length, replicate}
use cypher_syntax.Examples.Stores.{low_stack}

abbrev alice : Identity
alice = record {
  name = ascii "alice";
  signing_private_key = replicate 32 1;
  exchange_private_key = replicate 32 2;
}

-- what runs when a name is tested and its file is named
names : ℕ
unfolding validate_identity_name validate_name strip is_space utf8 encode validate_passphrase
    identity_filename storage_path identity_store make_store hex fill checksum
names = 0

alice-IsIdentity : IsIdentity is_visible alice
unfolding names
alice-IsIdentity = record {
  named = refl;
  signing_bytes = ground arith;
  signing_length = refl;
  exchange_bytes = ground arith;
  exchange_length = refl;
}

abbrev passphrase : Value
passphrase = bytes (ascii "a long passphrase")

abbrev salt : Bytes
salt = replicate 16 1

abbrev nonce : Bytes
nonce = replicate 12 2

saved :
    (Storage.save toy is_visible low_stack no_faults
      (ascii "x7")
      salt
      nonce
      alice
      passphrase
      (start old_disk)).0
    ≡ ok tt
unfolding names encode_object dumps sort_datum write_datum of_value escape escape_char hex_digit
    int_text decimal digits seal_object seal Store.save Storage.save atomic_write make_file
    write_file sync_file set_mode set_mode_at replace unlink sync_entries
saved = refl

identity_load-save_example :
    Storage.load toy is_visible low_stack false
      (Storage.save toy is_visible low_stack no_faults
        (ascii "x7")
        salt
        nonce
        alice
        passphrase
        (start old_disk)).1.disk
      (str (ascii "alice"))
      passphrase
    ≡ ok alice
identity_load-save_example =
    identity_load-save is_visible toy toy-Lengths toy-Correct low_stack no_faults old_disk
      (ascii "x7") salt nonce alice passphrase old_disk-IsSound refl alice-IsIdentity saved

load-IsIdentity_example : (alice.name ≡ ascii "alice") × IsIdentity is_visible alice
load-IsIdentity_example =
    load-IsIdentity toy is_visible low_stack false
      (Storage.save toy is_visible low_stack no_faults (ascii "x7") salt nonce alice passphrase
        (start old_disk)).1.disk
      (ascii "alice") passphrase alice
      (identity_load-save is_visible toy toy-Lengths toy-Correct low_stack no_faults old_disk
        (ascii "x7") salt nonce alice passphrase old_disk-IsSound refl alice-IsIdentity saved)

path : Text
unfolding names
path = the_ok (storage_path toy is_visible (str (ascii "alice"))) tt

located : storage_path toy is_visible (str (ascii "alice")) ≡ ok path
unfolding path
located = the_ok_eq (storage_path toy is_visible (str (ascii "alice"))) tt

storage_path-IsSafe_example : (length path ≡ 77) × (all_of is_file_char path ≡ true)
storage_path-IsSafe_example =
    storage_path-IsSafe toy toy-Lengths toy-digest_bytes is_visible (str (ascii "alice")) path
      located
