-- ===== src/Handshake/Transcript.antt =====
-- What the signed bytes and the transcript of src/cyphersyntax/handshake.py determine.
use cypher_syntax.Py.Result.{ok, bind-eq-ok, ok-injective}
use cypher_syntax.Py.Value.{Bytes}
use cypher_syntax.Py.Text.{ascii, utf8, utf8-injective, decimal, decimal-injective}
use cypher_syntax.Py.Bytes.{append_cancel}
use cypher_syntax.Handshake.Fields.{Terms, encode_fields, handshake_context}
use cypher_syntax.Handshake.Framing.{encode_fields-injective}
use cypher_syntax.Handshake.Messages.{
  HandshakeOffer, HandshakeResponse, HandshakeConfirmation, validate_for_offer,
  validate_for_response, handshake_transcript, response_signature_payload,
  confirmation_signature_payload,
}
use cypher_syntax.Prelude.{
  ◌≡◌, refl, sym, ap, ◌∙◌, ◌≢◌, ◌↔◌, List, [], ◌∷◌, ◌++◌, arith, ==_refl, list_eq_refl, list_eq_iff,
}

-- what `str.encode` made of the texts of some terms
record Spelling (t : Terms) : Type 0 where
  suite_bytes : Bytes
  initiator_bytes : Bytes
  responder_bytes : Bytes
  suite_encoded : utf8 t.suite ≡ ok suite_bytes
  initiator_encoded : utf8 t.initiator ≡ ok initiator_bytes
  responder_encoded : utf8 t.responder ≡ ok responder_bytes

abbrev term_fields : (t : Terms) → Spelling t → List Bytes → List Bytes
term_fields t s rest =
    decimal t.version
    ∷ s.suite_bytes
    ∷ s.initiator_bytes
    ∷ s.responder_bytes
    ∷ t.initiator_ephemeral_public_key
    ∷ t.initiator_signing_public_key
    ∷ rest

fields_determine_terms :
    (t u : Terms) (a : Spelling t) (b : Spelling u) (xs ys : List Bytes)
    → term_fields t a xs ≡ term_fields u b ys
    → (t ≡ u) × (xs ≡ ys)
fields_determine_terms t u a b xs ys e =
    let suites : a.suite_bytes ≡ b.suite_bytes = cc in
    let initiators : a.initiator_bytes ≡ b.initiator_bytes = cc in
    let responders : a.responder_bytes ≡ b.responder_bytes = cc in
    let v = decimal-injective t.version u.version (cc) in
    let s = utf8-injective t.suite u.suite a.suite_encoded (b.suite_encoded ∙ ap ok (sym suites)) in
    let i =
      utf8-injective t.initiator u.initiator a.initiator_encoded
        (b.initiator_encoded ∙ ap ok (sym initiators)) in
    let r =
      utf8-injective t.responder u.responder a.responder_encoded
        (b.responder_encoded ∙ ap ok (sym responders)) in
    (ground arith, cc)

context_fields :
    (t : Terms) {bs : Bytes}
    → handshake_context t ≡ ok bs
    → (s : Spelling t) × (fields : Bytes) × (encode_fields (term_fields t s []) ≡ ok fields)
      × (bs ≡ ascii "CypherSyntax/handshake-offer/v1" ++ fields)
unfolding handshake_context
context_fields t h =
    let (suite, hs, h1) = bind-eq-ok (utf8 t.suite) _ h in
    let (initiator, hi, h2) = bind-eq-ok (utf8 t.initiator) _ h1 in
    let (responder, hr, h3) = bind-eq-ok (utf8 t.responder) _ h2 in
    let (fields, hf, h4) = bind-eq-ok (encode_fields _) _ h3 in
    (
      record {
        suite_bytes = suite;
        initiator_bytes = initiator;
        responder_bytes = responder;
        suite_encoded = hs;
        initiator_encoded = hi;
        responder_encoded = hr;
      },
      fields,
      hf,
      sym (ok-injective h4),
    )

-- Offers whose signatures cover the same bytes state the same terms.
pub handshake_context-injective :
    (t u : Terms) (bs : Bytes) → handshake_context t ≡ ok bs → handshake_context u ≡ ok bs → t ≡ u
handshake_context-injective t u bs h k =
    let (a, f, hf, e) = context_fields t h in
    let (b, g, hg, d) = context_fields u k in
    let prefix = ascii "CypherSyntax/handshake-offer/v1" in
    let same = (append_cancel prefix prefix {us = f} {vs = g} refl (sym e ∙ d)).1 in
    (fields_determine_terms t u a b [] []
      (encode_fields-injective _ _ g refl (hf ∙ ap ok same) hg)).0

-- A response fits an offer exactly if it repeats all six terms of it.
pub validate_for_offer_iff :
    (response : HandshakeResponse) (offer : HandshakeOffer)
    → (validate_for_offer response offer ≡ ok tt) ↔ (response.terms ≡ offer.terms)
unfolding validate_for_offer
validate_for_offer_iff r o = (
  λ h. ground (
    arith,
    list_eq_iff r.suite o.suite,
    list_eq_iff r.initiator o.initiator,
    list_eq_iff r.responder o.responder,
    list_eq_iff r.initiator_ephemeral_public_key o.initiator_ephemeral_public_key,
    list_eq_iff r.initiator_signing_public_key o.initiator_signing_public_key,
  ),
  λ e. rw e (simp (==_refl, list_eq_refl)),
)

abbrev transcript_fields : (o : HandshakeOffer) → Spelling o.terms → HandshakeResponse → List Bytes
transcript_fields o s r =
    term_fields o.terms s
      (o.signature ∷ r.responder_ephemeral_public_key ∷ r.responder_signing_public_key ∷ [])

transcript_parts :
    (o : HandshakeOffer) (r : HandshakeResponse) {bs : Bytes}
    → handshake_transcript o r ≡ ok bs
    → (r.terms ≡ o.terms)
      × (s : Spelling o.terms) × (fields : Bytes) × (encode_fields (transcript_fields o s r)
          ≡ ok fields)
      × (bs ≡ ascii "CypherSyntax/handshake-transcript/v1" ++ fields)
unfolding handshake_transcript
transcript_parts o r h =
    let (fit, h0, h1) = bind-eq-ok (validate_for_offer r o) _ h in
    let (suite, hs, h2) = bind-eq-ok (utf8 o.suite) _ h1 in
    let (initiator, hi, h3) = bind-eq-ok (utf8 o.initiator) _ h2 in
    let (responder, hr, h4) = bind-eq-ok (utf8 o.responder) _ h3 in
    let (fields, hf, h5) = bind-eq-ok (encode_fields _) _ h4 in
    (
      (validate_for_offer_iff r o).0 h0,
      record {
        suite_bytes = suite;
        initiator_bytes = initiator;
        responder_bytes = responder;
        suite_encoded = hs;
        initiator_encoded = hi;
        responder_encoded = hr;
      },
      fields,
      hf,
      sym (ok-injective h5),
    )

-- Two handshakes with one transcript have the same offer, signature included, and responses with the
-- same terms, the same ephemeral key and the same signing key.
pub handshake_transcript-injective :
    (o p : HandshakeOffer) (r q : HandshakeResponse) (bs : Bytes)
    → handshake_transcript o r ≡ ok bs
    → handshake_transcript p q ≡ ok bs
    → (o ≡ p)
      × (r.terms ≡ q.terms)
      × (r.responder_ephemeral_public_key ≡ q.responder_ephemeral_public_key)
      × (r.responder_signing_public_key ≡ q.responder_signing_public_key)
handshake_transcript-injective o p r q bs h k =
    let (er, a, f, hf, e) = transcript_parts o r h in
    let (eq, b, g, hg, d) = transcript_parts p q k in
    let prefix = ascii "CypherSyntax/handshake-transcript/v1" in
    let same = (append_cancel prefix prefix {us = f} {vs = g} refl (sym e ∙ d)).1 in
    let (terms, rest) =
      fields_determine_terms o.terms p.terms a b _ _
        (encode_fields-injective _ _ g refl (hf ∙ ap ok same) hg) in
    (ground arith, er ∙ terms ∙ sym eq, cc, cc)

-- the bytes behind the label that a response's signature covers
response_parts :
    (o : HandshakeOffer) (r : HandshakeResponse) {bs : Bytes}
    → response_signature_payload r o ≡ ok bs
    → (t : Bytes) × (fields : Bytes) × (handshake_transcript o r ≡ ok t)
      × (encode_fields (t ∷ r.responder_key_confirmation ∷ []) ≡ ok fields)
      × (bs ≡ ascii "CypherSyntax/handshake-response-signature/v1" ++ fields)
unfolding response_signature_payload
response_parts o r h =
    let (t, ht, h1) = bind-eq-ok (handshake_transcript o r) _ h in
    let (fields, hf, h2) = bind-eq-ok (encode_fields _) _ h1 in
    (t, fields, ht, hf, sym (ok-injective h2))

confirmation_parts :
    (n : HandshakeConfirmation) (o : HandshakeOffer) (r : HandshakeResponse) {bs : Bytes}
    → confirmation_signature_payload n o r ≡ ok bs
    → (t : Bytes) × (fields : Bytes) × (handshake_transcript o r ≡ ok t)
      × (encode_fields (t ∷ r.responder_key_confirmation ∷ n.initiator_key_confirmation ∷ [])
          ≡ ok fields)
      × (bs ≡ ascii "CypherSyntax/handshake-confirmation-signature/v1" ++ fields)
unfolding confirmation_signature_payload
confirmation_parts n o r h =
    let (fit, h0, h1) = bind-eq-ok (validate_for_response n r) _ h in
    let (t, ht, h2) = bind-eq-ok (handshake_transcript o r) _ h1 in
    let (fields, hf, h3) = bind-eq-ok (encode_fields _) _ h2 in
    (t, fields, ht, hf, sym (ok-injective h3))

-- The bytes that a response's signature covers determine the offer, the response's terms, its two
-- public keys and its key confirmation: all of the response but the signature itself.
pub response_signature_payload-injective :
    (o p : HandshakeOffer) (r q : HandshakeResponse) (bs : Bytes)
    → response_signature_payload r o ≡ ok bs
    → response_signature_payload q p ≡ ok bs
    → (o ≡ p) × (record r { signature = q.signature } ≡ q)
response_signature_payload-injective o p r q bs h k =
    let (t, f, ht, hf, e) = response_parts o r h in
    let (u, g, hu, hg, d) = response_parts p q k in
    let prefix = ascii "CypherSyntax/handshake-response-signature/v1" in
    let same = (append_cancel prefix prefix {us = f} {vs = g} refl (sym e ∙ d)).1 in
    let rows = encode_fields-injective _ _ g refl (hf ∙ ap ok same) hg in
    let transcripts : t ≡ u = cc in
    let confirmations : r.responder_key_confirmation ≡ q.responder_key_confirmation = cc in
    let (offers, terms, ephemeral, signing) =
      handshake_transcript-injective o p r q u (ht ∙ ap ok transcripts) hu in
    (
      offers,
      λ i. record {
        terms = terms i;
        responder_ephemeral_public_key = ephemeral i;
        responder_signing_public_key = signing i;
        responder_key_confirmation = confirmations i;
        signature = q.signature;
      },
    )

offer_ne_response :
    (f g : Bytes)
    → ¬ (
        ascii "CypherSyntax/handshake-offer/v1" ++ f
        ≡ ascii "CypherSyntax/handshake-response-signature/v1" ++ g)
offer_ne_response f g e = ground arith

offer_ne_confirmation :
    (f g : Bytes)
    → ¬ (
        ascii "CypherSyntax/handshake-offer/v1" ++ f
        ≡ ascii "CypherSyntax/handshake-confirmation-signature/v1" ++ g)
offer_ne_confirmation f g e = ground arith

response_ne_confirmation :
    (f g : Bytes)
    → ¬ (
        ascii "CypherSyntax/handshake-response-signature/v1" ++ f
        ≡ ascii "CypherSyntax/handshake-confirmation-signature/v1" ++ g)
response_ne_confirmation f g e = ground arith

-- No signature can be carried from one message to another: the bytes that an offer's, a response's
-- and a confirmation's signatures cover are never the same.
pub payloads_differ :
    (t : Terms) (o p : HandshakeOffer) (r q : HandshakeResponse) (n : HandshakeConfirmation)
    (a b d : Bytes)
    → handshake_context t ≡ ok a
    → response_signature_payload r o ≡ ok b
    → confirmation_signature_payload n p q ≡ ok d
    → (a ≢ b) × (a ≢ d) × (b ≢ d)
payloads_differ t o p r q n a b d ha hb hd =
    let (_, f, _, ea) = context_fields t ha in
    let (_, g, _, _, eb) = response_parts o r hb in
    let (_, k, _, _, ed) = confirmation_parts n p q hd in
    (
      λ e. offer_ne_response f g (sym ea ∙ e ∙ eb),
      λ e. offer_ne_confirmation f k (sym ea ∙ e ∙ ed),
      λ e. response_ne_confirmation g k (sym eb ∙ e ∙ ed),
    )

-- The transcript leaves out the key confirmation and the signature of the response.
pub handshake_transcript_cong :
    (o : HandshakeOffer) (r q : HandshakeResponse)
    → r.terms ≡ q.terms
    → r.responder_ephemeral_public_key ≡ q.responder_ephemeral_public_key
    → r.responder_signing_public_key ≡ q.responder_signing_public_key
    → handshake_transcript o r ≡ handshake_transcript o q
unfolding handshake_transcript validate_for_offer
handshake_transcript_cong o r q terms ephemeral signing = rw (terms, ephemeral, signing) refl

-- The bytes that a response's signature covers leave out the signature.
pub response_signature_payload_cong :
    (o : HandshakeOffer) (r q : HandshakeResponse)
    → r.terms ≡ q.terms
    → r.responder_ephemeral_public_key ≡ q.responder_ephemeral_public_key
    → r.responder_signing_public_key ≡ q.responder_signing_public_key
    → r.responder_key_confirmation ≡ q.responder_key_confirmation
    → response_signature_payload r o ≡ response_signature_payload q o
unfolding response_signature_payload
response_signature_payload_cong o r q terms ephemeral signing confirming =
    rw (handshake_transcript_cong o r q terms ephemeral signing, confirming) refl
