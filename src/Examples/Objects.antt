-- ===== src/Examples/Objects.antt =====
-- Dictionaries that JSON does not keep as they are: what `save` makes of them, and `load` of the file.
use cypher_syntax.Py.Result.{ok, err, type_error, store_error}
use cypher_syntax.Py.Value.{bool, null, object, array, end, field, nil, cons, Bytes}
use cypher_syntax.Py.Text.{ascii}
use cypher_syntax.Json.Datum.{
  Datum, key_str, key_int, py_bool, py_none, py_dict, py_tuple, no_more, element, no_key, entry,
}
use cypher_syntax.Store.{encode_object, seal_object, open_blob}
use cypher_syntax.Examples.Toy.{toy, the_ok, fill, checksum, seal}
use cypher_syntax.Prelude.{pos, ◌≡◌, refl, true}
use cypher_syntax.Examples.Stores.{encodes, reads, low_stack, store, salt, nonce}

-- `{"a": {10: None, 2: None}}`: the keys are sorted as numbers, and then written as texts
abbrev numbered : Datum
numbered = py_dict (
    entry (key_str (ascii "a"))
      (py_dict (entry (key_int (pos 10)) py_none (entry (key_int (pos 2)) py_none no_key))) no_key)

numbered_encoded : encode_object low_stack numbered ≡ ok (ascii "{\"a\":{\"2\":null,\"10\":null}}")
unfolding encodes
numbered_encoded = refl

numbered_blob : Bytes
unfolding encodes seal_object fill checksum seal
numbered_blob = the_ok (seal_object low_stack toy store numbered salt nonce) tt

-- which `load` refuses, for the texts are in another order
numbered_refused : open_blob low_stack toy store numbered_blob ≡ err store_error
unfolding numbered_blob reads
numbered_refused = refl

-- `{"a": (None, True)}`
abbrev paired : Datum
paired = py_dict (
    entry (key_str (ascii "a")) (py_tuple (element py_none (element (py_bool true) no_more)))
      no_key)

paired_blob : Bytes
unfolding encodes seal_object fill checksum seal
paired_blob = the_ok (seal_object low_stack toy store paired salt nonce) tt

-- which comes back as a list
pair_listed :
    open_blob low_stack toy store paired_blob
    ≡ ok (object (field (ascii "a") (array (cons null (cons (bool true) nil))) end))
unfolding paired_blob reads
pair_listed = refl

-- `{1: None}`
number_key_refused :
    encode_object low_stack (py_dict (entry (key_int (pos 1)) py_none no_key)) ≡ err type_error
unfolding encodes
number_key_refused = refl

-- `{"a": {1: None, "b": None}}`: keys that are not ordered
mixed_keys_refused :
    encode_object low_stack (
      py_dict (
        entry
          (key_str (ascii "a"))
          (py_dict (entry (key_int (pos 1)) py_none (entry (key_str (ascii "b")) py_none no_key)))
          no_key))
    ≡ err store_error
unfolding encodes
mixed_keys_refused = refl
