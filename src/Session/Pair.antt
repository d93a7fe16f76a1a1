-- ===== src/Session/Pair.antt =====
-- `SessionFactory.pair_for_tests` of src/cyphersyntax/session.py: both sides of a handshake in one process.
use cypher_syntax.Py.Result.{Result, ok, ◌>>=◌, bind-eq-ok, ok-injective}
use cypher_syntax.Py.Value.{str, Bytes}
use cypher_syntax.Crypto.{Crypto, Lengths, Correct, AeadSuite}
use cypher_syntax.Identity.{Identity, ed25519_public_bytes}
use cypher_syntax.Handshake.Messages.{HandshakeConfirmation}
use cypher_syntax.Session.State.{SessionState, open_session}
use cypher_syntax.Session.Start.{initiator, responder}
use cypher_syntax.Session.Complete.{complete_initiator, complete_responder}
use cypher_syntax.Session.Agreement.{handshake_agreement}
use cypher_syntax.Prelude.{ℕ, ◌≡◌, sym, ap, ◌∙◌, Bool}

module _ (c : Crypto) (printable : ℕ → Bool) where
  -- the two ephemeral private keys are drawn
  unfoldable pub pair_for_tests :
      Identity → Identity → AeadSuite → Bytes → Bytes → Bytes → Result (SessionState × SessionState)
  pair_for_tests alice bob suite supplemental_secret alice_key bob_key = do
    pending_alice ←
        initiator c printable alice (str bob.name) (ed25519_public_bytes c bob) suite
          supplemental_secret alice_key
    answer ←
        responder c printable bob (ed25519_public_bytes c alice) pending_alice.offer
          supplemental_secret bob_key
    finished ← (complete_initiator c printable answer.0 pending_alice).0
    bob_session ← (complete_responder c finished.0 answer.1).0
    ok (finished.1, bob_session)

  -- The two sessions of a pair have one root key, and each has the other's name and ephemeral key.
  pub pair_for_tests-agree :
      Correct c
      → Lengths c
      → (alice bob : Identity) (suite : AeadSuite) (supplemental_secret alice_key bob_key : Bytes)
        (a b : SessionState)
      → pair_for_tests alice bob suite supplemental_secret alice_key bob_key ≡ ok (a, b)
      → (root : Bytes) × (a
          ≡ open_session alice.name bob.name suite root
              (c.x25519_public alice_key)
              (c.x25519_public bob_key))
        × (b
            ≡ open_session bob.name alice.name suite root
                (c.x25519_public bob_key)
                (c.x25519_public alice_key))
  unfolding pair_for_tests
  pair_for_tests-agree correct lengths alice bob suite extra alice_key bob_key a b h =
      let (pending, e1, h1) =
        bind-eq-ok
          (initiator c printable alice (str bob.name) (ed25519_public_bytes c bob) suite extra
            alice_key)
          _ h in
      let (answer, e2, h2) =
        bind-eq-ok
          (responder c printable bob (ed25519_public_bytes c alice) pending.offer extra bob_key) _
          h1 in
      let (finished, e3, h3) =
        bind-eq-ok (complete_initiator c printable answer.0 pending).0 _ h2 in
      let (session, e4, h4) = bind-eq-ok (complete_responder c finished.0 answer.1).0 _ h3 in
      let (n, root, x, y) =
        handshake_agreement c printable correct lengths alice bob (str bob.name) suite extra
          alice_key bob_key pending answer.0 answer.1 e1 e2 in
      let same = ok-injective (sym e3 ∙ ap (λ p. p.0) x) in
      let confirmed = ap (λ (p : HandshakeConfirmation × SessionState). p.0) same in
      let session_same =
        ok-injective
          (sym e4 ∙ ap (λ m. (complete_responder c m answer.1).0) confirmed ∙ ap (λ p. p.0) y) in
      let pair = ok-injective h4 in
      (
        root,
        sym (ap (λ (p : SessionState × SessionState). p.0) pair)
            ∙ ap (λ (p : HandshakeConfirmation × SessionState). p.1) same,
        sym (ap (λ (p : SessionState × SessionState). p.1) pair) ∙ session_same,
      )
