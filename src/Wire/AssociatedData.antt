-- ===== src/Wire/AssociatedData.antt =====
-- The associated data of an envelope of src/cyphersyntax/wire.py, which the sealing of the
-- ciphertext covers.
use cypher_syntax.Py.Result.{ok, bind-eq-ok}
use cypher_syntax.Py.Value.{bytes, object, Text, Bytes}
use cypher_syntax.Py.Text.{ascii, utf8-injective}
use cypher_syntax.Names.{name_clean}
use cypher_syntax.Json.Parse.{loads, distinct_keys}
use cypher_syntax.Json.Dump.{Member, text, number, dumps, object_text, fields_of}
use cypher_syntax.Json.Roundtrip.{AreClean, loads-object_text}
use cypher_syntax.Wire.{
  MessageEnvelope, Metadata, metadata_members, validate_metadata, validate_ciphertext,
  associated_data,
}
use cypher_syntax.Wire.Validity.{built, IsComplete, metadata_sound, suite_clean}
use cypher_syntax.Prelude.{
  ℕ, ◌≡◌, refl, sym, ap, ◌∙◌, Bool, true, some, List, [], ◌∷◌, arith, pos, replicate,
}

-- the members as `sort_keys` orders them
abbrev ordered : Metadata → List (Text × Member)
ordered m =
    (ascii "recipient", text m.recipient)
    ∷ (ascii "sender", text m.sender)
    ∷ (ascii "sequence", number (pos m.sequence))
    ∷ (ascii "suite", text m.suite)
    ∷ (ascii "v", number (pos m.version))
    ∷ []

dumps-metadata_members :
    (m : Metadata) → dumps true (metadata_members m) ≡ object_text true (ordered m)
unfolding dumps
dumps-metadata_members m = refl

ordered-distinct : (m : Metadata) → distinct_keys (fields_of (ordered m)) ≡ true
unfolding distinct_keys
ordered-distinct m = refl

-- what the five members state
abbrev Agree : MessageEnvelope → MessageEnvelope → Type 0
Agree e f =
    (e.version ≡ f.version)
    × (e.suite ≡ f.suite)
    × (e.sender ≡ f.sender)
    × (e.recipient ≡ f.recipient)
    × (e.sequence ≡ f.sequence)

fields-injective :
    (m n : Metadata)
    → some (object (fields_of (ordered m))) ≡ some (object (fields_of (ordered n)))
    → m ≡ n
fields-injective m n h = ground arith

module _ (printable : ℕ → Bool) where
  -- an envelope with a ciphertext of the least length in place of its own
  abbrev sealed : MessageEnvelope → MessageEnvelope
  sealed e = record e { ciphertext = bytes (replicate 16 0) }

  short_ciphertext : validate_ciphertext (bytes (replicate 16 0)) ≡ ok (replicate 16 0)
  unfolding validate_ciphertext
  short_ciphertext = refl

  complete :
      (e : MessageEnvelope) (m : Metadata)
      → validate_metadata printable e ≡ ok m
      → IsComplete printable (sealed e) m (replicate 16 0)
  complete e m h =
      metadata_sound printable (sealed e) m (replicate 16 0) (unfold validate_metadata in h)
        short_ciphertext

  ordered_clean :
      (m : Metadata) (e : MessageEnvelope) (c : Bytes)
      → IsComplete printable e m c
      → AreClean (ordered m)
  ordered_clean m e c h = (
    refl,
    name_clean printable m.recipient h.recipient_IsName,
    (
      refl,
      name_clean printable m.sender h.sender_IsName,
      (refl, tt, (refl, suite_clean m.suite h.suite_ascii, (refl, tt, tt))),
    ),
  )

  sealed-Agree :
      (e f : MessageEnvelope) (m : Metadata) (c d : Bytes)
      → sealed e ≡ built m c
      → sealed f ≡ built m d
      → Agree e f
  sealed-Agree e f m c d h k = (
    ap (λ x. x.version) h ∙ sym (ap (λ x. x.version) k),
    ap (λ x. x.suite) h ∙ sym (ap (λ x. x.suite) k),
    ap (λ x. x.sender) h ∙ sym (ap (λ x. x.sender) k),
    ap (λ x. x.recipient) h ∙ sym (ap (λ x. x.recipient) k),
    ap (λ x. x.sequence) h ∙ sym (ap (λ x. x.sequence) k),
  )

  -- Envelopes with the same associated data agree in all that it is made of: version, suite, sender,
  -- recipient and sequence number.
  pub associated_data-injective :
      (e f : MessageEnvelope) (encoding : Bytes)
      → associated_data printable e ≡ ok encoding
      → associated_data printable f ≡ ok encoding
      → Agree e f
  unfolding associated_data
  associated_data-injective e f encoding h k =
      let (m, hm, spelled_m) = bind-eq-ok (validate_metadata printable e) _ h in
      let (n, hn, spelled_n) = bind-eq-ok (validate_metadata printable f) _ k in
      let fit_m = complete e m hm in
      let fit_n = complete f n hn in
      let same_text =
        utf8-injective (dumps true (metadata_members m)) (dumps true (metadata_members n)) spelled_m
          spelled_n in
      let texts : object_text true (ordered m) ≡ object_text true (ordered n) =
        sym (dumps-metadata_members m) ∙ same_text ∙ dumps-metadata_members n in
      let same = fields-injective m n (
        sym (
          loads-object_text true true (ordered m) (ordered_clean m (sealed e) _ fit_m)
            (ordered-distinct m))
        ∙ ap (loads true) texts
        ∙ loads-object_text true true (ordered n) (ordered_clean n (sealed f) _ fit_n)
            (ordered-distinct n)) in
      sealed-Agree e f m _ _ fit_m.same (fit_n.same ∙ ap (λ x. built x (replicate 16 0)) (sym same))
