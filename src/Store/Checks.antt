-- ===== src/Store/Checks.antt =====
-- What `load` has tested of the object that it returns, and what it raises.
use mathlib.Core.Path.{subst}
use mathlib.Core.Option
use cypher_syntax.Py.Result.{
  Error, Result, ok, err, invalid_tag, store_error, recursion_error, require, bind-eq-ok,
  require-eq-ok, ok-injective, Result-cases,
}
use cypher_syntax.Py.Value.{Value, Text, Bytes}
use cypher_syntax.Py.Text.{utf8, utf8-raises}
use cypher_syntax.Py.Utf8.{decode}
use cypher_syntax.Json.Parse.{loads}
use cypher_syntax.Json.Object.{parsed}
use cypher_syntax.Json.Datum.{Interpreter, dumps, of_value, nesting}
use cypher_syntax.Json.Levels.{Refused, dumps-Refused}
use cypher_syntax.Store.Raises.{
  Raises, Raises-bind, Raises-require, Raises-weaken, Raises-parsed, parsed-eq-ok,
}
use cypher_syntax.Store.Roundtrip.{encode_object-of_value}
use cypher_syntax.Crypto.{Crypto, aes_gcm_siv}
use cypher_syntax.Store.{
  store_magic, store_header, store_fixed_bytes, store_salt_bytes, store_nonce_bytes,
  store_tag_bytes, max_store_plaintext_bytes, max_store_file_bytes, is_version, byte_at,
  starts_with, is_object, EncryptedStore, encode_object, decode_object, encoding, derive_key,
  authenticated, open_blob,
}
use cypher_syntax.Prelude.{
  ℕ, suc, ◌<◌, ◌⊎◌, ◌+◌, ◌≤◌, ◌≡◌, refl, sym, ap, ◌∙◌, inl, inr, true, false, some, arith, leb,
  ◌==◌, length, take, drop, length-take, length-drop, list_eq, eq_of_list_eq,
}

leb-eq-true : (m n : ℕ) → leb m n ≡ true → m ≤ n
leb-eq-true m n h = ground (arith, h)

module _ (python : Interpreter) where
  -- what `load` may raise of a value: RecursionError where `json.dumps` has no stack for it
  abbrev TooDeep : Value → Error → Type 0
  TooDeep v e = (e ≡ store_error) ⊎ ((e ≡ recursion_error) × (suc python.dump_levels < nesting v))

  encoding-TooDeep :
      (v : Value) (r : Result Text)
      → Refused python (nesting v) (suc python.dump_levels) r
      → Raises (TooDeep v) (encoding r)
  encoding-TooDeep v (ok t) h = elim (Result-cases (utf8 t)) [
    | inl (b, e) ↦ rw e (
        Raises-require (TooDeep v) (leb (length b) max_store_plaintext_bytes) store_error _
          (inl refl) (λ h. tt))
    | inr (x, e) ↦ rw (e, utf8-raises t x e) (inl refl)
  ]
  encoding-TooDeep v (err e) (inl h) = rw h (inl refl)
  encoding-TooDeep v (err e) (inr (inl h)) = rw h (inl refl)
  encoding-TooDeep v (err e) (inr (inr (h, lt))) = rw h (inr (refl, lt))

  -- what is raised of a plaintext
  abbrev Reread : Bytes → Error → Type 0
  Reread plaintext e =
      (e ≡ store_error)
      ⊎ ((e ≡ recursion_error)
          × ((raw : Value) × (Option.bind (decode plaintext) (λ t. loads false t) ≡ some raw)
              × (suc python.dump_levels < nesting raw)))

  TooDeep-Reread :
      (plaintext : Bytes) (raw : Value)
      → Option.bind (decode plaintext) (λ t. loads false t) ≡ some raw
      → (e : Error) → TooDeep raw e
      → Reread plaintext e
  TooDeep-Reread plaintext raw x e (inl h) = inl h
  TooDeep-Reread plaintext raw x e (inr (h, lt)) = inr (h, (raw, x, lt))

  decode_object-Reread :
      (plaintext : Bytes) → Raises (Reread plaintext) (decode_object python plaintext)
  unfolding decode_object
  decode_object-Reread plaintext =
      let P = Reread plaintext in
      let read = Option.bind (decode plaintext) (λ t. loads false t) in
      Raises-require P (leb (length plaintext) max_store_plaintext_bytes) store_error _ (inl refl)
        (λ h.
          Raises-bind P (parsed store_error read) _ (Raises-parsed P store_error read (inl refl))
            (λ raw x.
              Raises-require P (leb (nesting raw) (suc python.parse_levels)) store_error _
                (inl refl)
                (λ h. Raises-require P (is_object raw) store_error _ (inl refl) (λ o.
                  Raises-bind P (encode_object python (of_value raw)) _
                    (Raises-weaken (TooDeep raw) P
                      (TooDeep-Reread plaintext raw (parsed-eq-ok store_error read raw x)) _
                      (subst (Raises (TooDeep raw)) (sym (encode_object-of_value python raw o)) (
                        encoding-TooDeep raw (dumps python (of_value raw))
                          (dumps-Refused python raw))))
                    (λ b e.
                      Raises-require P (list_eq b plaintext) store_error _ (inl refl) (λ e. tt))))))

  decode_object_sound :
      (plaintext : Bytes) (v : Value)
      → decode_object python plaintext ≡ ok v
      → encode_object python (of_value v) ≡ ok plaintext
  unfolding decode_object
  decode_object_sound plaintext v h =
      let (_, _, h1) =
        bind-eq-ok (require (leb (length plaintext) max_store_plaintext_bytes) store_error) _ h in
      let (raw, _, h2) =
        bind-eq-ok (parsed store_error (Option.bind (decode plaintext) (λ t. loads false t))) _
          h1 in
      let (_, _, h2') =
        bind-eq-ok (require (leb (nesting raw) (suc python.parse_levels)) store_error) _ h2 in
      let (_, _, h3) = bind-eq-ok (require (is_object raw) store_error) _ h2' in
      let (b, e, h4) = bind-eq-ok (encode_object python (of_value raw)) _ h3 in
      let (_, k, h5) = bind-eq-ok (require (list_eq b plaintext) store_error) _ h4 in
      subst (λ x. encode_object python (of_value x) ≡ ok plaintext) (ok-injective h5)
        (e ∙ ap ok (eq_of_list_eq b plaintext (require-eq-ok (list_eq b plaintext) store_error k)))

  module _ (c : Crypto) (s : EncryptedStore) where
    abbrev salt_of : Bytes → Bytes
    salt_of blob = take store_salt_bytes (drop (length store_header) blob)

    abbrev nonce_of : Bytes → Bytes
    nonce_of blob = take store_nonce_bytes (drop (length store_header + store_salt_bytes) blob)

    abbrev opened : Bytes → Bytes → Result Bytes
    opened key blob =
        c.aead_decrypt aes_gcm_siv key (nonce_of blob) (drop store_fixed_bytes blob) store_header

    derive_key-eq-ok :
        (salt key : Bytes) → derive_key python c s salt ≡ ok key → key ≡ c.scrypt salt s.passphrase
    derive_key-eq-ok salt key h = ground (arith, h)

    authenticated-eq-ok :
        (r : Result Bytes) (plaintext : Bytes)
        → authenticated python c s r ≡ ok plaintext
        → r ≡ ok plaintext
    authenticated-eq-ok (ok b) plaintext h = h
    authenticated-eq-ok (err e) plaintext h = absurd (ground (arith, h))

    abbrev Documented : Type 0
    Documented =
        (key nonce box associated : Bytes) (e : Error)
        → length key ≡ 32
        → length nonce ≡ store_nonce_bytes
        → c.aead_decrypt aes_gcm_siv key nonce box associated ≡ err e
        → e ≡ invalid_tag

    authenticated-Raises :
        (P : Error → Type 0) (r : Result Bytes)
        → P store_error
        → ((e : Error) → r ≡ err e → e ≡ invalid_tag)
        → Raises P (authenticated python c s r)
    authenticated-Raises P (ok b) p h = tt
    authenticated-Raises P (err e) p h = rw (h e refl) p

    nonce_length :
        (blob : Bytes)
        → leb (store_fixed_bytes + store_tag_bytes) (length blob) ≡ true
        → length (nonce_of blob) ≡ store_nonce_bytes
    nonce_length blob h =
        length-take 12 (drop 35 blob)
        ∙ omega (arith, length-drop 35 blob, leb-eq-true 63 (length blob) h)

    abbrev Refusal : Bytes → Error → Type 0
    Refusal blob e =
        (e ≡ store_error)
        ⊎ ((e ≡ recursion_error)
            × ((plaintext : Bytes) × (raw : Value) × (opened (c.scrypt (salt_of blob) s.passphrase)
                    blob
                  ≡ ok plaintext)
                × (Option.bind (decode plaintext) (λ t. loads false t) ≡ some raw)
                × (suc python.dump_levels < nesting raw)))

    Reread-Refusal :
        (blob plaintext : Bytes)
        → opened (c.scrypt (salt_of blob) s.passphrase) blob ≡ ok plaintext
        → (e : Error) → Reread plaintext e
        → Refusal blob e
    Reread-Refusal blob plaintext x e (inl h) = inl h
    Reread-Refusal blob plaintext x e (inr (h, (raw, read, deep))) =
        inr (h, (plaintext, raw, x, read, deep))

    open_blob-Refusal :
        ((salt passphrase : Bytes) → length (c.scrypt salt passphrase) ≡ 32)
        → Documented
        → (blob : Bytes) → Raises (Refusal blob) (open_blob python c s blob)
    unfolding open_blob
    open_blob-Refusal keyed documented blob =
        let P = Refusal blob in
        Raises-require P (leb (store_fixed_bytes + store_tag_bytes) (length blob)) store_error _
          (inl refl)
          (λ sized.
            Raises-require P (leb (length blob) max_store_file_bytes) store_error _ (inl refl) (λ h.
              Raises-require P (starts_with store_magic blob) store_error _ (inl refl) (λ h.
                Raises-require P (is_version (byte_at (length store_magic) blob)) store_error _
                  (inl refl)
                  (λ h.
                    Raises-bind P (derive_key python c s (salt_of blob)) _
                      (Raises-require P (length (salt_of blob) == store_salt_bytes) store_error _
                        (inl refl) (λ h. tt))
                      (λ key k.
                        let derived = derive_key-eq-ok (salt_of blob) key k in
                        Raises-bind P (authenticated python c s (opened key blob)) _
                          (authenticated-Raises P (opened key blob) (inl refl) (λ e x.
                            documented key (nonce_of blob) _ _ e
                              (ap length derived ∙ keyed (salt_of blob) s.passphrase)
                              (nonce_length blob sized) x))
                          (λ plaintext x.
                            Raises-weaken (Reread plaintext) P
                              (Reread-Refusal blob plaintext (
                                ap (λ k. opened k blob) (sym derived)
                                ∙ authenticated-eq-ok (opened key blob) plaintext x))
                              _ (decode_object-Reread plaintext)))))))

    -- A file that is opened has a size within the bounds, the marker and the version in front, and a
    -- ciphertext that is authentic under the key of its salt and the passphrase; the object that comes
    -- back is encoded by exactly the bytes that were encrypted.
    pub open_blob_sound :
        (blob : Bytes) (v : Value)
        → open_blob python c s blob ≡ ok v
        → (store_fixed_bytes + store_tag_bytes ≤ length blob)
          × (length blob ≤ max_store_file_bytes)
          × (starts_with store_magic blob ≡ true)
          × (is_version (byte_at (length store_magic) blob) ≡ true)
          × ((plaintext : Bytes) × (c.aead_decrypt aes_gcm_siv
                  (c.scrypt (salt_of blob) s.passphrase)
                  (nonce_of blob)
                  (drop store_fixed_bytes blob)
                  store_header
                ≡ ok plaintext)
              × (encode_object python (of_value v) ≡ ok plaintext))
    unfolding open_blob
    open_blob_sound blob v h =
        let (_, k1, h1) =
          bind-eq-ok (require (leb (store_fixed_bytes + store_tag_bytes) (length blob)) store_error)
            _ h in
        let (_, k2, h2) =
          bind-eq-ok (require (leb (length blob) max_store_file_bytes) store_error) _ h1 in
        let (_, k3, h3) = bind-eq-ok (require (starts_with store_magic blob) store_error) _ h2 in
        let (_, k4, h4) =
          bind-eq-ok (require (is_version (byte_at (length store_magic) blob)) store_error) _ h3 in
        let (key, k5, h5) = bind-eq-ok (derive_key python c s (salt_of blob)) _ h4 in
        let (plaintext, k6, h6) = bind-eq-ok (authenticated python c s (opened key blob)) _ h5 in
        (
          leb-eq-true _ _ (
              require-eq-ok (leb (store_fixed_bytes + store_tag_bytes) (length blob)) store_error
                k1),
          leb-eq-true _ _ (require-eq-ok (leb (length blob) max_store_file_bytes) store_error k2),
          require-eq-ok (starts_with store_magic blob) store_error k3,
          require-eq-ok (is_version (byte_at (length store_magic) blob)) store_error k4,
          (
            plaintext,
            ap (λ k. opened k blob) (sym (derive_key-eq-ok (salt_of blob) key k5))
                ∙ authenticated-eq-ok (opened key blob) plaintext k6,
            decode_object_sound plaintext v h6,
          ),
        )

    -- Of the bytes of a file, whatever they are, `load` raises a StoreError, or the RecursionError of
    -- `json.dumps`, which encodes again what was read: then the file is authentic, and its plaintext is the
    -- text of an object that is nested deeper than `json.dumps` has the stack for. The conditions: scrypt
    -- returns a key of 32 bytes, and decryption with a key of 32 bytes and a nonce of twelve raises nothing
    -- but InvalidTag.
    pub open_blob_raises :
        ((salt passphrase : Bytes) → length (c.scrypt salt passphrase) ≡ 32)
        → ((key nonce box associated : Bytes) (e : Error)
            → length key ≡ 32
            → length nonce ≡ store_nonce_bytes
            → c.aead_decrypt aes_gcm_siv key nonce box associated ≡ err e
            → e ≡ invalid_tag)
        → (blob : Bytes) (e : Error) → open_blob python c s blob ≡ err e
        → (e ≡ store_error)
          ⊎ ((e ≡ recursion_error)
              × ((plaintext : Bytes) × (raw : Value) × (c.aead_decrypt aes_gcm_siv
                      (c.scrypt (salt_of blob) s.passphrase)
                      (nonce_of blob)
                      (drop store_fixed_bytes blob)
                      store_header
                    ≡ ok plaintext)
                  × (Option.bind (decode plaintext) (λ t. loads false t) ≡ some raw)
                  × (suc python.dump_levels < nesting raw)))
    open_blob_raises keyed documented blob e h =
        subst (Raises (Refusal blob)) h (open_blob-Refusal keyed documented blob)
