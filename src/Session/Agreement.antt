-- ===== src/Session/Agreement.antt =====
-- An undisturbed handshake of src/cyphersyntax/session.py succeeds, and ends with one session seen
-- from its two sides.
use mathlib.Core.Path.{subst}
use cypher_syntax.Py.Result.{ok, bind-eq-ok, ok-injective}
use cypher_syntax.Py.Value.{Value, int, str, bytes, Bytes}
use cypher_syntax.Py.Text.{ascii}
use cypher_syntax.Crypto.{
  Crypto, AeadSuite, aes_gcm_siv, chacha20_poly1305, suite_name, Lengths, Correct,
}
use cypher_syntax.Kdf.{derive_key_confirmation, confirmation_payload}
use cypher_syntax.Identity.{Identity, ed25519_public_bytes, sign}
use cypher_syntax.Handshake.Fields.{Terms, encode_fields, encode_field}
use cypher_syntax.Handshake.Framing.{encode_field-eq-ok, encode_fields_fits}
use cypher_syntax.Handshake.Validity.{IsTerms}
use cypher_syntax.Handshake.Transcript.{validate_for_offer_iff}
use cypher_syntax.Handshake.Construct.{make_confirmation_complete}
use cypher_syntax.Handshake.Messages.{
  HandshakeOffer, HandshakeResponse, HandshakeConfirmation, make_confirmation,
  validate_for_response, handshake_transcript, response_signature_payload,
  confirmation_signature_payload,
}
use cypher_syntax.Session.State.{parse_suite, open_session, InitiatorHandshake, ResponderHandshake}
use cypher_syntax.Session.Start.{exchanged, initiator, responder}
use cypher_syntax.Session.Inversion.{Offers, Responds, root_of, initiator_sound, responder_sound}
use cypher_syntax.Session.Closing.{complete_initiator_ok, complete_responder_ok}
use cypher_syntax.Session.Complete.{
  finish_initiator, finish_responder, complete_initiator, complete_responder,
}
use cypher_syntax.Prelude.{
  ℕ, ◌^◌, ◌<◌, ◌≡◌, refl, sym, ap, ◌∙◌, Bool, true, none, some, [], ◌∷◌, ◌++◌, arith, ==_refl, pos,
  length, replicate, length-replicate, list_eq, list_eq_refl,
}

-- a confirmation of a response, with a key confirmation and a signature
abbrev pub confirmation_of : HandshakeResponse → Bytes → Bytes → HandshakeConfirmation
confirmation_of r key_confirmation signature = record {
  version = r.version;
  suite = r.suite;
  initiator = r.initiator;
  responder = r.responder;
  initiator_ephemeral_public_key = r.initiator_ephemeral_public_key;
  responder_ephemeral_public_key = r.responder_ephemeral_public_key;
  initiator_key_confirmation = key_confirmation;
  signature = signature;
}

validate_for_response_of :
    (r : HandshakeResponse) (k s : Bytes) → validate_for_response (confirmation_of r k s) r ≡ ok tt
unfolding validate_for_response
validate_for_response_of r k s = simp (==_refl, list_eq_refl)

transcript_is_short :
    (r : HandshakeResponse) (o : HandshakeOffer) (t payload : Bytes)
    → handshake_transcript o r ≡ ok t
    → response_signature_payload r o ≡ ok payload
    → length t < 256 ^ 4
unfolding response_signature_payload encode_fields
transcript_is_short r o t payload ht h =
    let (u, hu, h1) = bind-eq-ok (handshake_transcript o r) _ h in
    let (fields, hf, h2) = bind-eq-ok (encode_fields (u ∷ _ ∷ [])) _ h1 in
    let (f, hg, h3) = bind-eq-ok (encode_field u) _ hf in
    let same : u ≡ t = ok-injective (sym hu ∙ ht) in rw (← same) (encode_field-eq-ok u hg).0

-- a confirmation can be signed, and what is signed does not depend on its signature
confirmation_payload_total :
    (r : HandshakeResponse) (o : HandshakeOffer) (k t : Bytes)
    → handshake_transcript o r ≡ ok t
    → length t < 256 ^ 4
    → length r.responder_key_confirmation ≡ 32
    → length k ≡ 32
    → (payload : Bytes) × ((s : Bytes)
        → confirmation_signature_payload (confirmation_of r k s) o r ≡ ok payload)
unfolding confirmation_signature_payload
confirmation_payload_total r o k t ht short hr hk =
    let (fields, e) =
      encode_fields_fits (t ∷ r.responder_key_confirmation ∷ k ∷ [])
        (short, (omega arith, (omega arith, tt))) in
    (
      ascii "CypherSyntax/handshake-confirmation-signature/v1" ++ fields,
      λ s. rw (validate_for_response_of r k s, ht, e) refl,
    )

module _ (c : Crypto) (printable : ℕ → Bool) (correct : Correct c) (lengths : Lengths c) where
  module _ (alice bob : Identity) (name : Value) (chosen : AeadSuite) (supplemental a b : Bytes)
      (o : HandshakeOffer) (r : HandshakeResponse) (pending : ResponderHandshake)
      (offers : Offers c printable alice name chosen a o)
      (responds : Responds c printable bob
        (ed25519_public_bytes c alice)
        o
        supplemental
        b
        r
        pending) where
    abbrev root : Bytes
    root = root_of c responds.shared responds.transcript supplemental

    -- the initiator's key confirmation
    abbrev key_confirmation : Bytes
    key_confirmation =
        c.hmac_sha256 root (confirmation_payload (ascii "initiator") (c.sha256 responds.transcript))

    key_confirmation_eq :
        derive_key_confirmation c root (c.sha256 responds.transcript) (ascii "initiator")
        ≡ ok key_confirmation
    unfolding derive_key_confirmation
    key_confirmation_eq = refl

    one_secret :
        exchanged (c.x25519_exchange a r.responder_ephemeral_public_key) ≡ ok responds.shared
    one_secret = rw (
      responds.answers.ephemeral,
      correct.exchange_comm a b,
      ← offers.ephemeral,
      responds.shared_eq,
    )

    terms_fit : IsTerms printable r.terms
    terms_fit = rw responds.answers.same_terms responds.fit

    covered :
        (payload : Bytes) × ((s : Bytes)
          → confirmation_signature_payload (confirmation_of r key_confirmation s) o r ≡ ok payload)
    covered =
        confirmation_payload_total r o key_confirmation responds.transcript responds.transcript_eq
          (transcript_is_short r o responds.transcript responds.payload responds.transcript_eq
            responds.payload_eq)
          responds.answers.confirmation_length (lengths.hmac_length _ _)

    abbrev signature : Bytes
    signature = sign c alice covered.0

    made :
        (s : Bytes)
        → length s ≡ 64
        → make_confirmation printable
            (int (pos r.version))
            (str r.suite)
            (str r.initiator)
            (str r.responder)
            (bytes r.initiator_ephemeral_public_key)
            (bytes r.responder_ephemeral_public_key)
            (bytes key_confirmation)
            (bytes s)
          ≡ ok (confirmation_of r key_confirmation s)
    made s hs =
        make_confirmation_complete printable r.terms r.responder_ephemeral_public_key
          key_confirmation s terms_fit
          (rw responds.answers.ephemeral responds.answers.ephemeral_length)
          (rw (responds.answers.ephemeral, responds.answers.same_terms) responds.answers.distinct)
          (lengths.hmac_length _ _) hs

    anchor_holds : list_eq r.responder_signing_public_key (ed25519_public_bytes c bob) ≡ true
    anchor_holds =
        subst (λ (k : Bytes). list_eq k (ed25519_public_bytes c bob) ≡ true)
          (sym responds.answers.signing) (list_eq_refl (ed25519_public_bytes c bob))

    response_verifies :
        c.ed25519_verify (ed25519_public_bytes c bob) r.signature responds.payload ≡ true
    response_verifies =
        subst
          (λ (s : Bytes). c.ed25519_verify (ed25519_public_bytes c bob) s responds.payload ≡ true)
          (sym responds.answers.signed)
          (correct.verify-sign bob.signing_private_key responds.payload)

    suite_parses : parse_suite r.suite ≡ ok responds.suite
    suite_parses =
        ap (λ (t : Terms). parse_suite t.suite) responds.answers.same_terms ∙ responds.suite_eq

    initiator_finishes :
        (self : InitiatorHandshake)
        → self ≡ record {
          local_identity = alice;
          remote_signing_public_key = ed25519_public_bytes c bob;
          offer = o;
          supplemental_secret = supplemental;
          ephemeral_private_key = some a;
        }
        → finish_initiator c printable self a r
          ≡ ok (
            confirmation_of r key_confirmation signature,
            open_session o.initiator o.responder responds.suite root
                o.initiator_ephemeral_public_key r.responder_ephemeral_public_key,
          )
    unfolding finish_initiator
    initiator_finishes self e = rw (
      e,
      (validate_for_offer_iff r o).1 responds.answers.same_terms,
      anchor_holds,
      responds.payload_eq,
      response_verifies,
      suite_parses,
      one_secret,
      responds.transcript_eq,
      responds.confirmation_eq,
      list_eq_refl r.responder_key_confirmation,
      key_confirmation_eq,
      made (replicate 64 0) (length-replicate {A = ℕ} 64 0),
      covered.1 (replicate 64 0),
      made signature (lengths.ed25519_sign_length _ _),
    )

    responder_finishes :
        (self : ResponderHandshake)
        → self ≡ pending
        → finish_responder c self root (confirmation_of r key_confirmation signature)
          ≡ ok (
              open_session o.responder o.initiator responds.suite root
                r.responder_ephemeral_public_key o.initiator_ephemeral_public_key)
    unfolding finish_responder
    responder_finishes self e = rw (
      e,
      responds.pending_eq,
      validate_for_response_of r key_confirmation signature,
      covered.1 signature,
      correct.verify-sign alice.signing_private_key covered.0,
      responds.transcript_eq,
      key_confirmation_eq,
      list_eq_refl key_confirmation,
    )

    agreement :
        (self : InitiatorHandshake)
        → self ≡ record {
          local_identity = alice;
          remote_signing_public_key = ed25519_public_bytes c bob;
          offer = o;
          supplemental_secret = supplemental;
          ephemeral_private_key = some a;
        }
        → (n : HandshakeConfirmation) × (root_key : Bytes) × (complete_initiator c printable r self
            ≡ (
              ok (
                n,
                open_session o.initiator o.responder responds.suite root_key
                    o.initiator_ephemeral_public_key r.responder_ephemeral_public_key,
              ),
              record self { ephemeral_private_key = none },
            ))
          × (complete_responder c n pending ≡ (
            ok (
                open_session o.responder o.initiator responds.suite root_key
                  r.responder_ephemeral_public_key o.initiator_ephemeral_public_key),
            record pending { root_key = none },
          ))
    agreement self e = (
      confirmation_of r key_confirmation signature,
      root,
      complete_initiator_ok c printable self a r _ _
          (ap (λ (h : InitiatorHandshake). h.ephemeral_private_key) e) (initiator_finishes self e),
      complete_responder_ok c pending root _ _
          (ap (λ (h : ResponderHandshake). h.root_key) responds.pending_eq)
          (responder_finishes pending refl),
    )

  parse-suite_name : (suite : AeadSuite) → parse_suite (suite_name suite) ≡ ok suite
  unfolding parse_suite suite_name
  parse-suite_name aes_gcm_siv = refl
  parse-suite_name chacha20_poly1305 = refl

  -- An undisturbed handshake succeeds: if the initiator started with the responder's public key, the
  -- responder answered this offer with the initiator's public key, and both gave the same
  -- supplemental secret, then both calls of `complete` return. The sessions have one root key and one
  -- suite, their names and ephemeral keys are exchanged, they start at number 0 with a new window, and
  -- both pending handshakes are closed.
  pub handshake_agreement :
      (alice bob : Identity) (name : Value) (suite : AeadSuite) (supplemental a b : Bytes)
      (pa : InitiatorHandshake) (r : HandshakeResponse) (pb : ResponderHandshake)
      → initiator c printable alice name (ed25519_public_bytes c bob) suite supplemental a ≡ ok pa
      → responder c printable bob (ed25519_public_bytes c alice) pa.offer supplemental b
        ≡ ok (r, pb)
      → (n : HandshakeConfirmation) × (root : Bytes) × (complete_initiator c printable r pa ≡ (
        ok (n, open_session alice.name bob.name suite root (c.x25519_public a) (c.x25519_public b)),
        record pa { ephemeral_private_key = none },
      ))
        × (complete_responder c n pb ≡ (
          ok (open_session bob.name alice.name suite root (c.x25519_public b) (c.x25519_public a)),
          record pb { root_key = none },
        ))
  unfolding complete_initiator complete_responder
  handshake_agreement alice bob name suite supplemental a b pa r pb ha hb =
      let (offers, started) =
        initiator_sound c printable alice name (ed25519_public_bytes c bob) suite supplemental a pa
          ha in
      let responds =
        responder_sound c printable bob (ed25519_public_bytes c alice) pa.offer supplemental b r pb
          hb in
      let (n, root, first, second) =
        agreement alice bob name suite supplemental a b pa.offer r pb offers responds pa started in
      let same : responds.suite ≡ suite =
        ok-injective
          (sym responds.suite_eq ∙ ap parse_suite offers.names_suite ∙ parse-suite_name suite) in
      let mine = offers.names_self in
      let other = sym responds.addressed in
      let local = offers.ephemeral in
      let remote = responds.answers.ephemeral in
      (
        n,
        root,
        first ∙ (λ i. (
          ok (n, open_session (mine i) (other i) (same i) root (local i) (remote i)),
          record pa { ephemeral_private_key = none },
        )),
        second ∙ (λ i. (
          ok (open_session (other i) (mine i) (same i) root (remote i) (local i)),
          record pb { root_key = none },
        )),
      )
