-- ===== src/Examples/Stores.antt =====
-- An object in an encrypted file.
use mathlib.Core.Option
use cypher_syntax.Py.Result.{Error, ok, err, store_error, recursion_error, invalid_tag}
use cypher_syntax.Py.Value.{Value, int, bool, null, object, array, end, field, nil, cons, Bytes}
use cypher_syntax.Py.Text.{ascii, utf8, decimal, digits}
use cypher_syntax.Py.Utf8.{encode, decode}
use cypher_syntax.Json.Strings.{escape, escape_char, hex_digit}
use cypher_syntax.Json.Numbers.{int_text}
use cypher_syntax.Json.Scan.{scan}
use cypher_syntax.Json.Datum.{Interpreter, sort_datum, write_datum, dumps, of_value, nesting}
use cypher_syntax.Json.Write.{sort_value}
use cypher_syntax.Json.Written.{IsReadable}
use cypher_syntax.Json.Parse.{loads, read_value, skip_blanks, read_key, strip_prefix, distinct_keys}
use cypher_syntax.Crypto.{aes_gcm_siv}
use cypher_syntax.Files.{
  make_file, write_file, sync_file, set_mode, set_mode_at, replace, unlink, sync_entries,
}
use cypher_syntax.Files.Crash.{AfterCrash}
use cypher_syntax.Persistence.{Faults, atomic_write}
use cypher_syntax.Persistence.Atomic.{start}
use cypher_syntax.Store
use cypher_syntax.Store.{
  EncryptedStore, encode_object, decode_object, seal_object, open_blob, open_found, store_magic,
  store_header, store_fixed_bytes, store_salt_bytes, store_nonce_bytes, store_tag_bytes,
  max_store_file_bytes, starts_with, is_version, byte_at, make_store,
}
use cypher_syntax.Store.Roundtrip.{encode_object-injective, open_blob-seal_object}
use cypher_syntax.Store.Checks.{open_blob_sound, open_blob_raises}
use cypher_syntax.Store.Durable.{load-save, save-IsSafe, save_raises}
use cypher_syntax.Examples.Toy.{
  toy, toy-Lengths, toy-Correct, toy-scrypt_length, the_ok, the_ok_eq, fill, checksum, seal,
}
use cypher_syntax.Examples.Disks.{old_disk, old_disk-IsSound, no_faults}
use cypher_syntax.Prelude.{
  ℕ, ◌+◌, ◌<◌, ◌≤◌, ◌≡◌, refl, ◌⊎◌, true, false, Option, none, some, arith, negsuc, length, take,
  drop, replicate, All,
}

-- floats are not written, and the stack is low
abbrev pub low_stack : Interpreter
low_stack = record {
  float_repr = λ t. none;
  float_le = λ j k. false;
  dump_levels = 2;
  parse_levels = 3;
}

abbrev high_stack : Interpreter
high_stack = record low_stack { dump_levels = 8; parse_levels = 8 }

abbrev keys : Value
keys = object (
    field (ascii "b") (array (cons (bool true) (cons null nil)))
      (field (ascii "a") (int (negsuc 11)) end))

-- the same, in the other order
abbrev keys' : Value
keys' = object (
    field (ascii "a") (int (negsuc 11))
      (field (ascii "b") (array (cons (bool true) (cons null nil))) end))

readable : IsReadable keys
unfolding distinct_keys
readable = (refl, (refl, (tt, (tt, tt)), (refl, tt, tt)))

readable' : IsReadable keys'
unfolding distinct_keys
readable' = (refl, (refl, tt, (refl, (tt, (tt, tt)), tt)))

shallow : nesting keys ≤ 4
unfolding nesting
shallow = omega arith

-- all that runs when an object is encoded
unfoldable pub encodes : ℕ
unfolding encode_object dumps sort_datum write_datum of_value escape escape_char hex_digit int_text
    decimal digits utf8 encode
encodes = 0

encoded : encode_object low_stack (of_value keys) ≡ ok (ascii "{\"a\":-12,\"b\":[true,null]}")
unfolding encodes
encoded = refl

encoded' : encode_object low_stack (of_value keys') ≡ ok (ascii "{\"a\":-12,\"b\":[true,null]}")
unfolding encodes
encoded' = refl

encode_object-injective_example : sort_value keys ≡ sort_value keys'
encode_object-injective_example =
    encode_object-injective low_stack keys keys' (ascii "{\"a\":-12,\"b\":[true,null]}") readable
      readable' encoded encoded'

abbrev pub store : EncryptedStore
store = record { path = ascii "store.bin"; passphrase = ascii "a long passphrase" }

abbrev pub salt : Bytes
salt = replicate 16 1

abbrev pub nonce : Bytes
nonce = replicate 12 2

blob : Bytes
unfolding encodes seal_object fill checksum seal
blob = the_ok (seal_object low_stack toy store (of_value keys) salt nonce) tt

sealed : seal_object low_stack toy store (of_value keys) salt nonce ≡ ok blob
unfolding blob
sealed = the_ok_eq (seal_object low_stack toy store (of_value keys) salt nonce) tt

open_blob_sound_example :
    (store_fixed_bytes + store_tag_bytes ≤ length blob)
    × (length blob ≤ max_store_file_bytes)
    × (starts_with store_magic blob ≡ true)
    × (is_version (byte_at (length store_magic) blob) ≡ true)
    × ((plaintext : Bytes) × (toy.aead_decrypt aes_gcm_siv
            (toy.scrypt (take store_salt_bytes (drop (length store_header) blob)) store.passphrase)
            (take store_nonce_bytes (drop (length store_header + store_salt_bytes) blob))
            (drop store_fixed_bytes blob)
            store_header
          ≡ ok plaintext)
        × (encode_object low_stack (of_value (sort_value keys)) ≡ ok plaintext))
open_blob_sound_example = open_blob_sound low_stack toy store blob (sort_value keys) (
    open_blob-seal_object low_stack toy toy-Lengths toy-Correct store keys salt nonce blob readable
      shallow refl sealed)

-- all that runs when a file is opened
unfoldable pub reads : ℕ
unfolding encodes open_blob decode_object decode loads read_value scan read_key strip_prefix
    skip_blanks distinct_keys nesting Option.bind fill checksum seal
reads = 0

toy_refuses :
    (key nonce box associated : Bytes) (e : Error)
    → length key ≡ 32
    → length nonce ≡ store_nonce_bytes
    → toy.aead_decrypt aes_gcm_siv key nonce box associated ≡ err e
    → e ≡ invalid_tag
toy_refuses key nonce box associated e k n h = ground (arith, h)

-- nested deeper than `json.dumps` goes on the low stack, and not deeper than `json.loads`
abbrev deep : Value
deep = object (field (ascii "a") (array (cons (array (cons (array nil) nil)) nil)) end)

deep_blob : Bytes
unfolding encodes seal_object fill checksum seal
deep_blob = the_ok (seal_object high_stack toy store (of_value deep) salt nonce) tt

-- such a file is authentic and canonical, and `load` raises RecursionError
too_deep : open_blob low_stack toy store deep_blob ≡ err recursion_error
unfolding deep_blob encodes reads
too_deep = refl

open_blob_raises_example :
    (recursion_error ≡ store_error)
    ⊎ ((recursion_error ≡ recursion_error)
        × ((plaintext : Bytes) × (raw : Value) × (toy.aead_decrypt aes_gcm_siv
                (toy.scrypt
                  (take store_salt_bytes (drop (length store_header) deep_blob))
                  store.passphrase)
                (take store_nonce_bytes (drop (length store_header + store_salt_bytes) deep_blob))
                (drop store_fixed_bytes deep_blob)
                store_header
              ≡ ok plaintext)
            × (Option.bind (decode plaintext) (λ t. loads false t) ≡ some raw)
            × (3 < nesting raw)))
open_blob_raises_example =
    open_blob_raises low_stack toy store toy-scrypt_length toy_refuses deep_blob recursion_error
      too_deep

-- all that runs when a file is written
writes : ℕ
unfolding encodes seal_object fill checksum seal Store.save atomic_write make_file write_file
    sync_file set_mode set_mode_at replace unlink sync_entries
writes = 0

saved :
    (Store.save low_stack toy store no_faults
      (ascii "x7")
      salt
      nonce
      (of_value keys)
      (start old_disk)).0
    ≡ ok tt
unfolding writes
saved = refl

load-save_example :
    Store.load low_stack toy store false
      (Store.save low_stack toy store no_faults
        (ascii "x7")
        salt
        nonce
        (of_value keys)
        (start old_disk)).1.disk
    ≡ ok (sort_value keys)
load-save_example =
    load-save low_stack toy toy-Lengths toy-Correct store no_faults old_disk old_disk-IsSound
      (ascii "x7") salt nonce refl keys readable shallow saved

save-IsSafe_example :
    All
      (λ d.
        (found : Option Bytes)
        → AfterCrash d (ascii "store.bin") found
        → AfterCrash old_disk (ascii "store.bin") found
          ⊎ (open_found low_stack toy store found ≡ ok (sort_value keys)))
      (Store.save low_stack toy store no_faults
        (ascii "x7")
        salt
        nonce
        (of_value keys)
        (start old_disk)).1.trace
save-IsSafe_example =
    save-IsSafe low_stack toy toy-Lengths toy-Correct store no_faults old_disk old_disk-IsSound
      (ascii "x7") salt nonce refl keys readable shallow

-- the sync of the directory fails
abbrev directory_fault : Faults
directory_fault = record no_faults { sync_directory = true }

not_saved :
    (Store.save low_stack toy store directory_fault
      (ascii "x7")
      salt
      nonce
      (of_value keys)
      (start old_disk)).0
    ≡ err store_error
unfolding writes
not_saved = refl

save_raises_example :
    (Store.load low_stack toy store false
        (Store.save low_stack toy store directory_fault
          (ascii "x7")
          salt
          nonce
          (of_value keys)
          (start old_disk)).1.disk
      ≡ Store.load low_stack toy store false old_disk)
    ⊎ (Store.load low_stack toy store false
          (Store.save low_stack toy store directory_fault
            (ascii "x7")
            salt
            nonce
            (of_value keys)
            (start old_disk)).1.disk
        ≡ ok (sort_value keys))
save_raises_example =
    save_raises low_stack toy toy-Lengths toy-Correct store directory_fault old_disk
      old_disk-IsSound (ascii "x7") salt nonce refl keys readable shallow store_error not_saved
