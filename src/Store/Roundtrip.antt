-- ===== src/Store/Roundtrip.antt =====
-- That `load` reads what `save` wrote.
use mathlib.Core.Path.{subst}
use mathlib.Core.Option
use cypher_syntax.Py.Result.{
  Result, ok, err, store_error, require, ◌>>=◌, bind-eq-ok, require-eq-ok, ok-injective,
}
use cypher_syntax.Py.Value.{Value, Fields, object, end, field, Text, Bytes}
use cypher_syntax.Py.Text.{utf8, utf8-injective, decode-utf8}
use cypher_syntax.Json.Parse.{loads}
use cypher_syntax.Json.Write.{sort_value}
use cypher_syntax.Json.Datum.{Interpreter, dumps, of_value, of_fields, nesting}
use cypher_syntax.Json.Embedding.{dumps-eq-ok, dumps-sort, nesting-sort}
use cypher_syntax.Json.Written.{IsReadable, some-injective}
use cypher_syntax.Json.Reread.{loads-dump_value}
use cypher_syntax.Crypto.{Crypto, Lengths, Correct, aes_gcm_siv}
use cypher_syntax.Store.{
  store_header, store_nonce_bytes, max_store_plaintext_bytes, as_store_error, are_texts, is_object,
  EncryptedStore, encode_object, decode_object, encoding, derive_key, seal_object, open_blob,
}
use cypher_syntax.Prelude.{
  ℕ, suc, ◌+◌, ◌≤◌, ◌≡◌, refl, sym, ap, ◌∙◌, true, false, some, ◌++◌, append_assoc, arith, leb,
  length, take, take-append, drop-append, drop, length-append, list_eq_refl,
}

-- an object that was encoded: its text, and its bytes
record IsEncoded (python : Interpreter) (v : Value) (encoding : Bytes) : Type 0 where
  written : Text
  is_object_value : is_object v ≡ true
  dumps_to : dumps python (of_value v) ≡ ok written
  spelled : utf8 written ≡ ok encoding
  fits : leb (length encoding) max_store_plaintext_bytes ≡ true

as_store_error-eq-ok : (r : Result Bytes) (b : Bytes) → as_store_error r ≡ ok b → r ≡ ok b
as_store_error-eq-ok (ok x) b h = h
as_store_error-eq-ok (err e) b h = absurd (ground (arith, h))

pub are_texts-of_fields : (fields : Fields) → are_texts (of_fields fields) ≡ true
unfolding of_fields
are_texts-of_fields end = refl
are_texts-of_fields (field k v fields) = are_texts-of_fields fields

leb-true : (m n : ℕ) → m ≤ n → leb m n ≡ true
leb-true m n h = ground (arith, h)

is_object-sort : (v : Value) → is_object v ≡ true → is_object (sort_value v) ≡ true
unfolding sort_value
is_object-sort (object fields) h = refl
is_object-sort _ h = absurd (cc)

module _ (python : Interpreter) where
  pub encode_object-of_value :
      (v : Value)
      → is_object v ≡ true
      → encode_object python (of_value v) ≡ encoding (dumps python (of_value v))
  unfolding encode_object of_value
  encode_object-of_value (object fields) h = rw (are_texts-of_fields fields) refl
  encode_object-of_value _ h = absurd (cc)

  encoded-is_object :
      (v : Value) (b : Bytes) → encode_object python (of_value v) ≡ ok b → is_object v ≡ true
  unfolding encode_object of_value
  encoded-is_object (object fields) b h = refl
  encoded-is_object _ b h = absurd (cc)

  encode_object-IsEncoded :
      (v : Value) (b : Bytes) → encode_object python (of_value v) ≡ ok b → IsEncoded python v b
  encode_object-IsEncoded v b h =
      let o = encoded-is_object v b h in
      let (x, e, h1) =
        bind-eq-ok (as_store_error (dumps python (of_value v) >>= utf8)) _
          (sym (encode_object-of_value v o) ∙ h) in
      let (u, k, h2) =
        bind-eq-ok (require (leb (length x) max_store_plaintext_bytes) store_error) _ h1 in
      let (t, d, sp) = bind-eq-ok (dumps python (of_value v)) utf8 (as_store_error-eq-ok _ x e) in
      subst (IsEncoded python v) (ok-injective h2) (record {
        written = t;
        is_object_value = o;
        dumps_to = d;
        spelled = sp;
        fits = require-eq-ok (leb (length x) max_store_plaintext_bytes) store_error k;
      })

  -- sorting the keys first changes nothing
  encode_object-sort :
      (v : Value)
      → is_object v ≡ true
      → encode_object python (of_value (sort_value v)) ≡ encode_object python (of_value v)
  encode_object-sort v h =
      encode_object-of_value (sort_value v) (is_object-sort v h)
      ∙ ap encoding (dumps-sort python v)
      ∙ sym (encode_object-of_value v h)

  -- the text of an object that JSON keeps is read back
  loads-encoded :
      (v : Value) (b : Bytes) (x : IsEncoded python v b)
      → IsReadable v
      → loads false x.written ≡ some (sort_value v)
  loads-encoded v b x r =
      loads-dump_value python.float_repr false v x.written r
        (dumps-eq-ok python v x.written x.dumps_to)

  decode_object-encode :
      (v : Value) (b : Bytes)
      → IsReadable v
      → nesting v ≤ suc python.parse_levels
      → encode_object python (of_value v) ≡ ok b
      → decode_object python b ≡ ok (sort_value v)
  unfolding decode_object Option.bind
  decode_object-encode v b r shallow h =
      let x = encode_object-IsEncoded v b h in
      rw
        (
          x.fits,
          decode-utf8 x.written b x.spelled,
          loads-encoded v b x r,
          nesting-sort v,
          leb-true (nesting v) (suc python.parse_levels) shallow,
          is_object-sort v x.is_object_value,
          encode_object-sort v x.is_object_value,
          h,
          list_eq_refl b,
        )
        refl

  -- Two objects that JSON keeps and that have one encoding differ in the order of their keys only.
  pub encode_object-injective :
      (v w : Value) (b : Bytes)
      → IsReadable v
      → IsReadable w
      → encode_object python (of_value v) ≡ ok b
      → encode_object python (of_value w) ≡ ok b
      → sort_value v ≡ sort_value w
  encode_object-injective v w b r r' h h' =
      let x = encode_object-IsEncoded v b h in
      let y = encode_object-IsEncoded w b h' in
      let same = utf8-injective x.written y.written x.spelled y.spelled in
      some-injective (sym (loads-encoded v b x r) ∙ ap (loads false) same ∙ loads-encoded w b y r')

  module _ (c : Crypto) (lengths : Lengths c) (correct : Correct c) (s : EncryptedStore) where
    salted_by :
        (salt key : Bytes)
        → derive_key python c s salt ≡ ok key
        → (length salt ≡ 16) × (key ≡ c.scrypt salt s.passphrase)
    salted_by salt key h = (ground (arith, h), ground (arith, h))

    abbrev laid_out : Bytes → Bytes → Bytes → Bytes
    laid_out salt nonce box = store_header ++ (salt ++ (nonce ++ box))

    length-laid_out :
        (salt nonce box : Bytes)
        → length (laid_out salt nonce box) ≡ 19 + (length salt + (length nonce + length box))
    length-laid_out salt nonce box =
        omega (arith, length-append salt (nonce ++ box), length-append nonce box)

    -- the slices of a blob
    open_blob-laid_out :
        (salt nonce box plaintext : Bytes)
        → length salt ≡ 16
        → length nonce ≡ 12
        → length box ≡ length plaintext + 16
        → length plaintext ≤ max_store_plaintext_bytes
        → c.aead_decrypt aes_gcm_siv (c.scrypt salt s.passphrase) nonce box store_header
          ≡ ok plaintext
        → open_blob python c s (laid_out salt nonce box) ≡ decode_object python plaintext
    unfolding open_blob
    open_blob-laid_out salt nonce box plaintext hs hn hb fits opened =
        let low : leb 63 (length (laid_out salt nonce box)) ≡ true =
          ground (arith, length-laid_out salt nonce box, hs, hn, hb) in
        let high : leb (length (laid_out salt nonce box)) 1048639 ≡ true =
          ground (arith, length-laid_out salt nonce box, hs, hn, hb, fits) in
        let last : drop 28 (salt ++ (nonce ++ box)) ≡ box =
          ap (drop 28) (sym (append_assoc salt nonce box))
          ∙ drop-append (salt ++ nonce) box 28 (omega (arith, length-append salt nonce, hs, hn)) in
        let middle : take 12 (drop 16 (salt ++ (nonce ++ box))) ≡ nonce =
          ap (take 12) (drop-append salt (nonce ++ box) 16 hs) ∙ take-append nonce box 12 hn in
        rw (low, high, take-append salt (nonce ++ box) 16 hs, hs, middle, last, opened) refl

    -- What `save` sealed, `load` opens to the object, the keys of its objects sorted: for an object that
    -- JSON keeps as it is and `json.loads` has the stack for, and a nonce of twelve bytes.
    pub open_blob-seal_object :
        (obj : Value) (salt nonce blob : Bytes)
        → IsReadable obj
        → nesting obj ≤ suc python.parse_levels
        → length nonce ≡ store_nonce_bytes
        → seal_object python c s (of_value obj) salt nonce ≡ ok blob
        → open_blob python c s blob ≡ ok (sort_value obj)
    unfolding seal_object open_blob
    open_blob-seal_object obj salt nonce blob r shallow n h =
        let (plaintext, e, h1) = bind-eq-ok (encode_object python (of_value obj)) _ h in
        let (key, k, h2) = bind-eq-ok (derive_key python c s salt) _ h1 in
        let (box, x, h3) =
          bind-eq-ok (c.aead_encrypt aes_gcm_siv key nonce plaintext store_header) _ h2 in
        let fits = (encode_object-IsEncoded obj plaintext e).fits in
        let salted : (length salt ≡ 16) × (key ≡ c.scrypt salt s.passphrase) =
          salted_by salt key k in
        subst (λ b. open_blob python c s b ≡ ok (sort_value obj)) (ok-injective h3)
          (open_blob-laid_out salt nonce box plaintext salted.0 n
              (lengths.encrypt_length aes_gcm_siv key nonce plaintext store_header box x)
              (ground (arith, fits))
              (correct.decrypt-encrypt aes_gcm_siv (c.scrypt salt s.passphrase) nonce plaintext
                store_header box
                (ap (λ (k : Bytes). c.aead_encrypt aes_gcm_siv k nonce plaintext store_header)
                    (sym salted.1)
                  ∙ x))
            ∙ decode_object-encode obj plaintext r shallow e)
