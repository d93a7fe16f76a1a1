-- ===== src/Handshake/Validity.antt =====
-- What the validators of src/cyphersyntax/handshake.py accept, and that they accept all of it.
use cypher_syntax.Py.Result.{
  Result, ok, type_error, value_error, ◌>>◌, require, bind-eq-ok, ok-injective,
}
use cypher_syntax.Py.Value.{Value, int, str, bytes, Text, Bytes}
use cypher_syntax.Names.{validate_name, IsName, validate_name_sound, validate_name_complete}
use cypher_syntax.Handshake.Fields.{
  Terms, x25519_public_key_length, ed25519_public_key_length, validate_version, validate_suite,
  validate_bytes, validate_participants, validate_offer_fields, is_supported_suite,
}
use cypher_syntax.Prelude.{
  ℕ, ◌≡◌, inl, inr, Bool, true, false, not, arith, Bool-cases, pos, negsuc, length, list_eq,
}

pub validate_version_sound :
    (v : Value) (n : ℕ) → validate_version v ≡ ok n → (v ≡ int (pos n)) × (n ≡ 1)
unfolding validate_version
validate_version_sound (int (pos m)) n h = ground arith
validate_version_sound (int (negsuc m)) n h = absurd (cc)
validate_version_sound _ n h = absurd (cc)

pub validate_suite_sound :
    (v : Value) (t : Text) → validate_suite v ≡ ok t → (v ≡ str t) × (is_supported_suite t ≡ true)
unfolding validate_suite
validate_suite_sound (str s) t h = ground arith
validate_suite_sound _ t h = absurd (cc)

pub validate_version_complete : (n : ℕ) → n ≡ 1 → validate_version (int (pos n)) ≡ ok n
unfolding validate_version
validate_version_complete n h = ground arith

pub validate_suite_complete :
    (t : Text) → is_supported_suite t ≡ true → validate_suite (str t) ≡ ok t
unfolding validate_suite
validate_suite_complete t h = rw h

pub validate_bytes_sound :
    (v : Value) (n : ℕ) (bs : Bytes) → validate_bytes v n ≡ ok bs → (v ≡ bytes bs) × (length bs ≡ n)
unfolding validate_bytes
validate_bytes_sound (bytes b) n bs h = ground arith
validate_bytes_sound _ n bs h = absurd (cc)

pub validate_bytes_complete :
    (bs : Bytes) (n : ℕ) → length bs ≡ n → validate_bytes (bytes bs) n ≡ ok bs
unfolding validate_bytes
validate_bytes_complete bs n h = ground arith

module _ (printable : ℕ → Bool) where
  -- the terms that an offer may state
  pub record IsTerms (t : Terms) : Type 0 where
    pub version_one : t.version ≡ 1
    pub supported : is_supported_suite t.suite ≡ true
    pub initiator_name : IsName printable t.initiator
    pub responder_name : IsName printable t.responder
    pub distinct : list_eq t.initiator t.responder ≡ false
    pub ephemeral_length : length t.initiator_ephemeral_public_key ≡ 32
    pub signing_length : length t.initiator_signing_public_key ≡ 32

  abbrev distinct_names : Text → Text → Result (Text × Text)
  distinct_names x y = do require (not (list_eq x y)) value_error; ok (x, y)

  names_of :
      (x y : Text) (i r : Value) (a b : Text)
      → (i ≡ str x) × IsName printable x
      → (r ≡ str y) × IsName printable y
      → distinct_names x y ≡ ok (a, b)
      → (i ≡ str a) × (r ≡ str b) × IsName printable a × IsName printable b × (list_eq a b ≡ false)
  names_of x y i r a b hx hy h = elim (Bool-cases (list_eq x y)) [
    | inl e ↦ absurd (cc (rw e at h))
    | inr e ↦
        let p : x ≡ a = cc (rw e at h) in
        let q : y ≡ b = cc (rw e at h) in rw (← p, ← q) (hx.0, hy.0, hx.1, hy.1, e)
  ]

  pub validate_participants_sound :
      (i r : Value) (a b : Text)
      → validate_participants printable i r ≡ ok (a, b)
      → (i ≡ str a) × (r ≡ str b) × IsName printable a × IsName printable b × (list_eq a b ≡ false)
  unfolding validate_participants
  validate_participants_sound i r a b h =
      let (x, hx, h1) = bind-eq-ok (validate_name printable type_error value_error i) _ h in
      let (y, hy, h2) = bind-eq-ok (validate_name printable type_error value_error r) _ h1 in
      names_of x y i r a b (validate_name_sound printable type_error value_error i x hx)
        (validate_name_sound printable type_error value_error r y hy) h2

  pub validate_participants_complete :
      (a b : Text)
      → IsName printable a
      → IsName printable b
      → list_eq a b ≡ false
      → validate_participants printable (str a) (str b) ≡ ok (a, b)
  unfolding validate_participants
  validate_participants_complete a b ha hb d = rw (
    validate_name_complete printable type_error value_error a ha,
    validate_name_complete printable type_error value_error b hb,
    d,
  )

  pub validate_offer_fields_complete :
      (t : Terms)
      → IsTerms t
      → validate_offer_fields printable
          (int (pos t.version))
          (str t.suite)
          (str t.initiator)
          (str t.responder)
          (bytes t.initiator_ephemeral_public_key)
          (bytes t.initiator_signing_public_key)
        ≡ ok t
  unfolding validate_offer_fields
  validate_offer_fields_complete t v = rw (
    validate_version_complete t.version v.version_one,
    validate_suite_complete t.suite v.supported,
    validate_participants_complete t.initiator t.responder v.initiator_name v.responder_name
        v.distinct,
    validate_bytes_complete t.initiator_ephemeral_public_key 32 v.ephemeral_length,
    validate_bytes_complete t.initiator_signing_public_key 32 v.signing_length,
  )

  -- the terms are fit, and the values are theirs
  abbrev pub Accepted : Terms → Value → Value → Value → Value → Value → Value → Type 0
  Accepted t version suite initiator responder ephemeral_key signing_key =
      IsTerms t
      × (version ≡ int (pos t.version))
      × (suite ≡ str t.suite)
      × (initiator ≡ str t.initiator)
      × (responder ≡ str t.responder)
      × (ephemeral_key ≡ bytes t.initiator_ephemeral_public_key)
      × (signing_key ≡ bytes t.initiator_signing_public_key)

  terms_of :
      (v : ℕ) (s i r : Text) (e k : Bytes)
      (version suite initiator responder ephemeral_key signing_key : Value)
      → (version ≡ int (pos v)) × (v ≡ 1)
      → (suite ≡ str s) × (is_supported_suite s ≡ true)
      → (initiator ≡ str i)
        × (responder ≡ str r)
        × IsName printable i
        × IsName printable r
        × (list_eq i r ≡ false)
      → (ephemeral_key ≡ bytes e) × (length e ≡ 32)
      → (signing_key ≡ bytes k) × (length k ≡ 32)
      → Accepted
          (record {
            version = v;
            suite = s;
            initiator = i;
            responder = r;
            initiator_ephemeral_public_key = e;
            initiator_signing_public_key = k;
          })
          version
          suite
          initiator
          responder
          ephemeral_key
          signing_key
  terms_of v s i r e k version suite initiator responder ephemeral_key signing_key hv hs hn he hk =
      (
        record {
          version_one = hv.1;
          supported = hs.1;
          initiator_name = hn.2;
          responder_name = hn.3;
          distinct = hn.4;
          ephemeral_length = he.1;
          signing_length = hk.1;
        },
        hv.0,
        hs.0,
        hn.0,
        hn.1,
        he.0,
        hk.0,
      )

  pub validate_offer_fields_sound :
      (version suite initiator responder ephemeral_key signing_key : Value) (t : Terms)
      → validate_offer_fields printable version suite initiator responder ephemeral_key signing_key
        ≡ ok t
      → Accepted t version suite initiator responder ephemeral_key signing_key
  unfolding validate_offer_fields
  validate_offer_fields_sound version suite initiator responder ephemeral_key signing_key t h =
      let (v, hv, h1) = bind-eq-ok (validate_version version) _ h in
      let (s, hs, h2) = bind-eq-ok (validate_suite suite) _ h1 in
      let (n, hn, h3) = bind-eq-ok (validate_participants printable initiator responder) _ h2 in
      let (e, he, h4) = bind-eq-ok (validate_bytes ephemeral_key x25519_public_key_length) _ h3 in
      let (k, hk, h5) = bind-eq-ok (validate_bytes signing_key ed25519_public_key_length) _ h4 in
      rw (← ok-injective h5) (
        terms_of v s n.0 n.1 e k version suite initiator responder ephemeral_key signing_key
          (validate_version_sound version v hv) (validate_suite_sound suite s hs)
          (validate_participants_sound initiator responder n.0 n.1 hn)
          (validate_bytes_sound ephemeral_key 32 e he) (validate_bytes_sound signing_key 32 k hk))
