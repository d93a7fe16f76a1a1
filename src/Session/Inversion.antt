-- ===== src/Session/Inversion.antt =====
-- What is known when `SessionFactory.initiator` and `SessionFactory.responder` have returned.
use mathlib.Core.Path.{subst}
use cypher_syntax.Py.Result.{ok, require, bind-eq-ok, ok-injective, require-eq-ok}
use cypher_syntax.Py.Value.{Value, int, str, bytes, Bytes}
use cypher_syntax.Py.Text.{ascii}
use cypher_syntax.Protocol.{protocol_version}
use cypher_syntax.Crypto.{Crypto, AeadSuite, suite_name}
use cypher_syntax.Kdf.{derive_session_root, derive_key_confirmation}
use cypher_syntax.Identity.{Identity, ed25519_public_bytes, sign}
use cypher_syntax.Handshake.Fields.{handshake_context, validate_offer_fields, validate_bytes}
use cypher_syntax.Handshake.Validity.{IsTerms, validate_offer_fields_sound, validate_bytes_sound}
use cypher_syntax.Handshake.Transcript.{handshake_transcript_cong, response_signature_payload_cong}
use cypher_syntax.Handshake.Construct.{Answers, from_offer_sound, offer_payload_sound}
use cypher_syntax.Handshake.Messages.{
  HandshakeOffer, HandshakeResponse, make_offer, signature_payload_for, offer_signature_payload,
  from_offer, handshake_transcript, response_signature_payload,
}
use cypher_syntax.Session.State.{parse_suite, InitiatorHandshake, ResponderHandshake}
use cypher_syntax.Session.Start.{exchanged, initiator, responder}
use cypher_syntax.Prelude.{
  ℕ, ◌≡◌, refl, sym, ap, ◌∙◌, Bool, true, Option, some, arith, pos, replicate, list_eq,
  eq_of_list_eq,
}

-- the root key of a handshake: shared secret, transcript, supplemental secret
abbrev pub root_of : Crypto → Bytes → Bytes → Bytes → Bytes
root_of c shared transcript supplemental =
    derive_session_root c shared (c.sha256 transcript) supplemental

module _ (c : Crypto) (printable : ℕ → Bool) where
  -- the offer of an identity to a name
  pub record Offers (identity : Identity) (remote_name : Value) (suite : AeadSuite)
      (generated : Bytes) (o : HandshakeOffer) : Type 0 where
    pub fit : IsTerms printable o.terms
    pub names_suite : o.suite ≡ suite_name suite
    pub names_self : o.initiator ≡ identity.name
    pub names_other : remote_name ≡ str o.responder
    pub ephemeral : o.initiator_ephemeral_public_key ≡ c.x25519_public generated
    pub signing : o.initiator_signing_public_key ≡ ed25519_public_bytes c identity
    pub payload : Bytes
    pub payload_eq : handshake_context o.terms ≡ ok payload
    pub signed : o.signature ≡ sign c identity payload

  made_offer :
      (identity : Identity) (remote_name : Value) (suite : AeadSuite) (generated : Bytes)
      (o : HandshakeOffer) (payload : Bytes)
      → signature_payload_for printable
          (int (pos protocol_version))
          (str (suite_name suite))
          (str identity.name)
          remote_name
          (bytes (c.x25519_public generated))
          (bytes (ed25519_public_bytes c identity))
        ≡ ok payload
      → make_offer printable
          (int (pos protocol_version))
          (str (suite_name suite))
          (str identity.name)
          remote_name
          (bytes (c.x25519_public generated))
          (bytes (ed25519_public_bytes c identity))
          (bytes (sign c identity payload))
        ≡ ok o
      → Offers identity remote_name suite generated o
  unfolding signature_payload_for make_offer
  made_offer identity remote_name suite generated o payload hp ho =
      let (t, ht, h1) = bind-eq-ok (validate_offer_fields printable _ _ _ _ _ _) _ hp in
      let (u, hu, k1) = bind-eq-ok (validate_offer_fields printable _ _ _ _ _ _) _ ho in
      let (s, hs, k2) = bind-eq-ok (validate_bytes _ _) _ k1 in
      let (fit, v, suites, mine, other, keys, signs) =
        validate_offer_fields_sound printable _ _ _ _ _ _ t ht in
      let same : u ≡ t = ok-injective (sym hu ∙ ht) in
      let offer : record { terms = u; signature = s } ≡ o = ok-injective k2 in
      let terms : o.terms ≡ t = ap (λ (x : HandshakeOffer). x.terms) (sym offer) ∙ same in
      let signature : o.signature ≡ s = ap (λ (x : HandshakeOffer). x.signature) (sym offer) in
      record {
        fit = rw terms fit;
        names_suite = rw terms (cc);
        names_self = rw terms (cc);
        names_other = rw terms other;
        ephemeral = rw terms (cc);
        signing = rw terms (cc);
        payload = payload;
        payload_eq = rw terms h1;
        signed = rw signature (cc (validate_bytes_sound _ _ s hs).0);
      }

  pub initiator_sound :
      (identity : Identity) (remote_name : Value) (remote_key : Bytes) (suite : AeadSuite)
      (supplemental_secret generated : Bytes) (pending : InitiatorHandshake)
      → initiator c printable identity remote_name remote_key suite supplemental_secret generated
        ≡ ok pending
      → Offers identity remote_name suite generated pending.offer
        × (pending ≡ record {
          local_identity = identity;
          remote_signing_public_key = remote_key;
          offer = pending.offer;
          supplemental_secret = supplemental_secret;
          ephemeral_private_key = some generated;
        })
  unfolding initiator
  initiator_sound identity remote_name remote_key suite supplemental_secret generated pending h =
      let (payload, hp, h1) = bind-eq-ok (signature_payload_for printable _ _ _ _ _ _) _ h in
      let (o, ho, h2) = bind-eq-ok (make_offer printable _ _ _ _ _ _ _) _ h1 in
      rw (← ok-injective h2) (made_offer identity remote_name suite generated o payload hp ho, refl)

  pub record Responds (identity : Identity) (remote_key : Bytes) (o : HandshakeOffer)
      (supplemental_secret generated : Bytes) (r : HandshakeResponse) (pending : ResponderHandshake)
      : Type 0 where
    pub fit : IsTerms printable o.terms
    pub addressed : identity.name ≡ o.responder
    pub anchored : o.initiator_signing_public_key ≡ remote_key
    pub offer_payload : Bytes
    pub offer_payload_eq : handshake_context o.terms ≡ ok offer_payload
    pub offer_verified : c.ed25519_verify remote_key o.signature offer_payload ≡ true
    pub suite : AeadSuite
    pub suite_eq : parse_suite o.suite ≡ ok suite
    pub shared : Bytes
    pub shared_eq : c.x25519_exchange generated o.initiator_ephemeral_public_key ≡ some shared
    pub transcript : Bytes
    pub transcript_eq : handshake_transcript o r ≡ ok transcript
    pub confirmation_eq :
        derive_key_confirmation c
          (root_of c shared transcript supplemental_secret)
          (c.sha256 transcript)
          (ascii "responder")
        ≡ ok r.responder_key_confirmation
    pub payload : Bytes
    pub payload_eq : response_signature_payload r o ≡ ok payload
    pub answers :
        Answers o
          (c.x25519_public generated)
          (ed25519_public_bytes c identity)
          r.responder_key_confirmation
          (sign c identity payload)
          r
    pub pending_eq : pending ≡ record {
      remote_signing_public_key = remote_key;
      offer = o;
      response = r;
      suite = suite;
      root_key = some (root_of c shared transcript supplemental_secret);
    }

  exchanged-eq-ok : (o : Option Bytes) {bs : Bytes} → exchanged o ≡ ok bs → o ≡ some bs
  exchanged-eq-ok o h = ground arith

  made_response :
      (identity : Identity) (remote_key : Bytes) (o : HandshakeOffer) (suite : AeadSuite)
      (supplemental_secret generated offer_payload shared confirmation transcript payload : Bytes)
      (provisional unsigned r : HandshakeResponse)
      → list_eq identity.name o.responder ≡ true
      → list_eq o.initiator_signing_public_key remote_key ≡ true
      → offer_signature_payload printable o ≡ ok offer_payload
      → c.ed25519_verify remote_key o.signature offer_payload ≡ true
      → parse_suite o.suite ≡ ok suite
      → exchanged (c.x25519_exchange generated o.initiator_ephemeral_public_key) ≡ ok shared
      → Answers o
          (c.x25519_public generated)
          (ed25519_public_bytes c identity)
          (replicate 32 0)
          (replicate 64 0)
          provisional
      → handshake_transcript o provisional ≡ ok transcript
      → derive_key_confirmation c
          (root_of c shared transcript supplemental_secret)
          (c.sha256 transcript)
          (ascii "responder")
        ≡ ok confirmation
      → Answers o
          (c.x25519_public generated)
          (ed25519_public_bytes c identity)
          confirmation
          (replicate 64 0)
          unsigned
      → response_signature_payload unsigned o ≡ ok payload
      → Answers o
          (c.x25519_public generated)
          (ed25519_public_bytes c identity)
          confirmation
          (sign c identity payload)
          r
      → Responds identity remote_key o supplemental_secret generated r (record {
        remote_signing_public_key = remote_key;
        offer = o;
        response = r;
        suite = suite;
        root_key = some (root_of c shared transcript supplemental_secret);
      })
  made_response identity remote_key o suite supplemental_secret generated offer_payload shared
        confirmation transcript payload provisional unsigned r h1 h2 h3 h4 h5 h6 a ht hc b hp d =
      let (fit, context) = offer_payload_sound printable o offer_payload h3 in
      record {
        fit = fit;
        addressed = eq_of_list_eq _ _ h1;
        anchored = eq_of_list_eq _ _ h2;
        offer_payload = offer_payload;
        offer_payload_eq = context;
        offer_verified = h4;
        suite = suite;
        suite_eq = h5;
        shared = shared;
        shared_eq = exchanged-eq-ok _ h6;
        transcript = transcript;
        transcript_eq =
            handshake_transcript_cong o r provisional (d.same_terms ∙ sym a.same_terms)
              (d.ephemeral ∙ sym a.ephemeral) (d.signing ∙ sym a.signing)
            ∙ ht;
        confirmation_eq = hc ∙ ap ok (sym d.confirming);
        payload = payload;
        payload_eq =
            response_signature_payload_cong o r unsigned (d.same_terms ∙ sym b.same_terms)
              (d.ephemeral ∙ sym b.ephemeral) (d.signing ∙ sym b.signing)
              (d.confirming ∙ sym b.confirming)
            ∙ hp;
        answers =
            subst
              (λ (f : Bytes).
                Answers o (c.x25519_public generated) (ed25519_public_bytes c identity) f
                  (sign c identity payload) r)
              (sym d.confirming) d;
        pending_eq = refl;
      }

  pub responder_sound :
      (identity : Identity) (remote_key : Bytes) (o : HandshakeOffer)
      (supplemental_secret generated : Bytes) (r : HandshakeResponse) (pending : ResponderHandshake)
      → responder c printable identity remote_key o supplemental_secret generated ≡ ok (r, pending)
      → Responds identity remote_key o supplemental_secret generated r pending
  unfolding responder
  responder_sound identity remote_key o supplemental_secret generated r pending h =
      let (_, a1, h1) = bind-eq-ok (require _ _) _ h in
      let (_, a2, h2) = bind-eq-ok (require _ _) _ h1 in
      let (signed, a3, h3) = bind-eq-ok (offer_signature_payload printable o) _ h2 in
      let (_, a4, h4) = bind-eq-ok (require _ _) _ h3 in
      let (suite, a5, h5) = bind-eq-ok (parse_suite o.suite) _ h4 in
      let (shared, a6, h6) = bind-eq-ok (exchanged _) _ h5 in
      let (provisional, a7, h7) = bind-eq-ok (from_offer printable o _ _ _ _) _ h6 in
      let (transcript, a8, h8) = bind-eq-ok (handshake_transcript o provisional) _ h7 in
      let (confirmation, a9, h9) = bind-eq-ok (derive_key_confirmation c _ _ _) _ h8 in
      let (unsigned, a10, h10) = bind-eq-ok (from_offer printable o _ _ _ _) _ h9 in
      let (payload, a11, h11) = bind-eq-ok (response_signature_payload unsigned o) _ h10 in
      let (q, a12, h12) = bind-eq-ok (from_offer printable o _ _ _ _) _ h11 in
      subst
        (λ (p : HandshakeResponse × ResponderHandshake).
          Responds identity remote_key o supplemental_secret generated p.0 p.1)
        (ok-injective h12)
        (made_response identity remote_key o suite supplemental_secret generated signed shared
          confirmation transcript payload provisional unsigned q (require-eq-ok _ _ a1)
          (require-eq-ok _ _ a2) a3 (require-eq-ok _ _ a4) a5 a6
          (from_offer_sound printable o _ _ _ _ provisional a7).1 a8 a9
          (from_offer_sound printable o _ _ _ _ unsigned a10).1 a11
          (from_offer_sound printable o _ _ _ _ q a12).1)
