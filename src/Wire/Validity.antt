-- ===== src/Wire/Validity.antt =====
-- What the validators of src/cyphersyntax/wire.py accept.
use mathlib.Core.Path.{subst}
use cypher_syntax.Py.Result.{
  Result, ok, err, envelope_error, require, bind-eq-ok, require-eq-ok, ok-injective,
}
use cypher_syntax.Py.Value.{Value, int, str, bytes, Text, Bytes}
use cypher_syntax.Py.Text.{all_of, all_of_weaken}
use cypher_syntax.Py.Utf8.{is_scalar}
use cypher_syntax.Py.Hex.{hex, AreBytes, from_hex-hex, hex-all_digits, length-hex}
use cypher_syntax.Protocol.{validate_message_sequence, validate_message_sequence_sound}
use cypher_syntax.Names.{validate_name, validate_name_sound, IsName}
use cypher_syntax.Wire.{
  MessageEnvelope, Metadata, validate_protocol_version, validate_suite_name, validate_ciphertext,
  decode_ciphertext, as_envelope_error, validate_metadata, validate_complete,
}
use cypher_syntax.Prelude.{
  ℕ, ◌<◌, ◌≡◌, refl, Bool, true, not, arith, ltb, pos, negsuc, length, list_eq,
}

version_sound : (v : Value) (n : ℕ) → validate_protocol_version v ≡ ok n → v ≡ int (pos n)
unfolding validate_protocol_version
version_sound (int (pos m)) n h = ground arith
version_sound (int (negsuc m)) n h = absurd (cc)
version_sound _ n h = absurd (cc)

suite_sound :
    (v : Value) (t : Text)
    → validate_suite_name v ≡ ok t
    → (v ≡ str t) × (all_of (λ c. ltb c 128) t ≡ true)
unfolding validate_suite_name
suite_sound (str s) t h = ground arith
suite_sound _ t h = absurd (cc)

ciphertext_sound :
    (v : Value) (bs : Bytes) → validate_ciphertext v ≡ ok bs → (v ≡ bytes bs) × (0 < length bs)
unfolding validate_ciphertext
ciphertext_sound (bytes b) bs h = ground arith
ciphertext_sound _ bs h = absurd (cc)

pub decode_ciphertext-hex :
    (bs : Bytes) → AreBytes bs → 0 < length bs → decode_ciphertext (str (hex bs)) ≡ ok bs
unfolding decode_ciphertext
decode_ciphertext-hex bs h positive =
    rw (length-hex bs, hex-all_digits bs h, from_hex-hex bs h) (ground arith)

pub suite_clean : (t : Text) → all_of (λ x. ltb x 128) t ≡ true → all_of is_scalar t ≡ true
suite_clean t h = all_of_weaken (λ x. ltb x 128) is_scalar t (λ x k. ground arith) h

abbrev pub built : Metadata → Bytes → MessageEnvelope
built m c = record {
  version = int (pos m.version);
  suite = str m.suite;
  sender = str m.sender;
  recipient = str m.recipient;
  sequence = int (pos m.sequence);
  ciphertext = bytes c;
}

module _ (printable : ℕ → Bool) where
  -- what an envelope that passes all the tests holds
  pub record IsComplete (e : MessageEnvelope) (m : Metadata) (c : Bytes) : Type 0 where
    pub same : e ≡ built m c
    pub version_ok : validate_protocol_version (int (pos m.version)) ≡ ok m.version
    pub suite_ok : validate_suite_name (str m.suite) ≡ ok m.suite
    pub suite_ascii : all_of (λ x. ltb x 128) m.suite ≡ true
    pub sender_ok :
        validate_name printable envelope_error envelope_error (str m.sender) ≡ ok m.sender
    pub sender_IsName : IsName printable m.sender
    pub recipient_ok :
        validate_name printable envelope_error envelope_error (str m.recipient) ≡ ok m.recipient
    pub recipient_IsName : IsName printable m.recipient
    pub sequence_ok : validate_message_sequence (int (pos m.sequence)) ≡ ok m.sequence
    pub nonempty : 0 < length c
    pub passes : validate_complete printable (built m c) ≡ ok (m, c)

  as_envelope_error-eq-ok :
      {A : Type 0} (r : Result A) (a : A) → as_envelope_error r ≡ ok a → r ≡ ok a
  as_envelope_error-eq-ok (ok b) a h = cc
  as_envelope_error-eq-ok (err x) a h = absurd (cc)

  -- the attributes, each known to be what its test passed
  known :
      (m : Metadata) (c : Bytes) {v s a b n t : Value}
      → v ≡ int (pos m.version)
      → s ≡ str m.suite
      → a ≡ str m.sender
      → b ≡ str m.recipient
      → n ≡ int (pos m.sequence)
      → t ≡ bytes c
      → ◌≡◌ {A = MessageEnvelope}
          (record {
            version = v;
            suite = s;
            sender = a;
            recipient = b;
            sequence = n;
            ciphertext = t;
          })
          (built m c)
  known m c hv hs ha hb hn ht = rw (hv, hs, ha, hb, hn, ht) refl

  -- the metadata that passed, for the values that the tests gave back
  passed :
      (m : Metadata) (c : Bytes)
      → validate_protocol_version (int (pos m.version)) ≡ ok m.version
      → validate_suite_name (str m.suite) ≡ ok m.suite
      → validate_name printable envelope_error envelope_error (str m.sender) ≡ ok m.sender
      → validate_name printable envelope_error envelope_error (str m.recipient) ≡ ok m.recipient
      → not (list_eq m.sender m.recipient) ≡ true
      → validate_message_sequence (int (pos m.sequence)) ≡ ok m.sequence
      → validate_ciphertext (bytes c) ≡ ok c
      → validate_complete printable (built m c) ≡ ok (m, c)
  unfolding validate_complete validate_metadata
  passed m c hv hs ha hb hd hn hc = rw (hv, hs, ha, hb, hd, hn, hc) refl

  gather :
      (e : MessageEnvelope) (m : Metadata) (c : Bytes)
      → validate_protocol_version e.version ≡ ok m.version
      → validate_suite_name e.suite ≡ ok m.suite
      → validate_name printable envelope_error envelope_error e.sender ≡ ok m.sender
      → validate_name printable envelope_error envelope_error e.recipient ≡ ok m.recipient
      → not (list_eq m.sender m.recipient) ≡ true
      → validate_message_sequence e.sequence ≡ ok m.sequence
      → validate_ciphertext e.ciphertext ≡ ok c
      → IsComplete e m c
  gather e m c hv hs ha hb hd hn hc =
      let v = version_sound e.version m.version hv in
      let (s, ascii_only) = suite_sound e.suite m.suite hs in
      let (a, sender_fit) = validate_name_sound printable _ _ e.sender m.sender ha in
      let (b, recipient_fit) = validate_name_sound printable _ _ e.recipient m.recipient hb in
      let (n, in_range) = validate_message_sequence_sound e.sequence m.sequence hn in
      let (t, positive) = ciphertext_sound e.ciphertext c hc in
      let hv' = subst (λ x. validate_protocol_version x ≡ ok m.version) v hv in
      let hs' = subst (λ x. validate_suite_name x ≡ ok m.suite) s hs in
      let ha' =
        subst (λ x. validate_name printable envelope_error envelope_error x ≡ ok m.sender) a ha in
      let hb' =
        subst (λ x. validate_name printable envelope_error envelope_error x ≡ ok m.recipient) b
          hb in
      let hn' = subst (λ x. validate_message_sequence x ≡ ok m.sequence) n hn in
      let hc' = subst (λ x. validate_ciphertext x ≡ ok c) t hc in
      record {
        same = known m c v s a b n t;
        version_ok = hv';
        suite_ok = hs';
        suite_ascii = ascii_only;
        sender_ok = ha';
        sender_IsName = sender_fit;
        recipient_ok = hb';
        recipient_IsName = recipient_fit;
        sequence_ok = hn';
        nonempty = positive;
        passes = passed m c hv' hs' ha' hb' hd hn' hc';
      }

  pub metadata_sound :
      (e : MessageEnvelope) (m : Metadata) (c : Bytes)
      → validate_metadata printable e ≡ ok m
      → validate_ciphertext e.ciphertext ≡ ok c
      → IsComplete e m c
  unfolding validate_metadata
  metadata_sound e m c h hc =
      let (v, hv, k1) = bind-eq-ok (validate_protocol_version e.version) _ h in
      let (s, hs, k2) = bind-eq-ok (validate_suite_name e.suite) _ k1 in
      let (a, ha, k3) =
        bind-eq-ok (validate_name printable envelope_error envelope_error e.sender) _ k2 in
      let (b, hb, k4) =
        bind-eq-ok (validate_name printable envelope_error envelope_error e.recipient) _ k3 in
      let (u, hd, k5) = bind-eq-ok (require (not (list_eq a b)) envelope_error) _ k4 in
      let (n, hn, k6) =
        bind-eq-ok (as_envelope_error (validate_message_sequence e.sequence)) _ k5 in
      subst (λ x. IsComplete e x c) (ok-injective k6)
        (gather e (record { version = v; suite = s; sender = a; recipient = b; sequence = n }) c hv
          hs ha hb (require-eq-ok (not (list_eq a b)) envelope_error hd)
          (as_envelope_error-eq-ok (validate_message_sequence e.sequence) n hn) hc)

  pub validate_complete-IsComplete :
      (e : MessageEnvelope) (m : Metadata) (c : Bytes)
      → validate_complete printable e ≡ ok (m, c)
      → IsComplete e m c
  unfolding validate_complete
  validate_complete-IsComplete e m c h =
      let (m', hm, h') = bind-eq-ok (validate_metadata printable e) _ h in
      let (c', hc, h'') = bind-eq-ok (validate_ciphertext e.ciphertext) _ h' in
      subst (λ p. IsComplete e p.0 p.1) (ok-injective h'') (metadata_sound e m' c' hm hc)
