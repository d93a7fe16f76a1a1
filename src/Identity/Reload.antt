-- ===== src/Identity/Reload.antt =====
-- That an identity that was saved is loaded again.
use mathlib.Core.Path.{subst}
use cypher_syntax.Py.Result.{
  Error, Result, ok, err, type_error, value_error, require, bind-eq-ok, ok-injective, Result-cases,
}
use cypher_syntax.Py.Value.{Value, str, Text, Bytes}
use cypher_syntax.Py.Hex.{hex, AreBytes, from_hex-hex, hex-all_digits, hex-all_scalar, length-hex}
use cypher_syntax.Json.Parse.{distinct_keys}
use cypher_syntax.Json.Write.{sort_value}
use cypher_syntax.Json.Written.{IsReadable}
use cypher_syntax.Names.{validate_name, validate_name_sound, IsName, name_clean}
use cypher_syntax.Crypto.{Crypto, Lengths, Correct}
use cypher_syntax.Files.{Disk}
use cypher_syntax.Files.Crash.{IsSound}
use cypher_syntax.Persistence.{Faults}
use cypher_syntax.Persistence.Atomic.{start}
use cypher_syntax.Json.Datum.{Interpreter, of_value, nesting}
use cypher_syntax.Store
use cypher_syntax.Store.{store_nonce_bytes}
use cypher_syntax.Store.Durable.{load-save}
use cypher_syntax.Identity.{Identity, is_path_component, validate_identity_name, make_identity}
use cypher_syntax.Identity.Storage.{
  storage_payload, as_identity_error, decode_private_key, from_raw, identity_store, save, load,
}
use cypher_syntax.Prelude.{
  ℕ, suc, ◌≤◌, ◌≡◌, refl, sym, ap, ◌∙◌, inl, inr, Bool, false, not, arith, length, list_eq_refl,
}

pub str-injective : {s t : Text} → str s ≡ str t → s ≡ t
str-injective h = cc

decode_private_key-hex :
    (key : Bytes) → AreBytes key → length key ≡ 32 → decode_private_key (str (hex key)) ≡ ok key
unfolding decode_private_key
decode_private_key-hex key h e =
    rw (length-hex key, hex-all_digits key h, from_hex-hex key h) (ground arith)

as_identity_error-eq-ok :
    {A : Type 0} (r : Result A) (a : A) → as_identity_error r ≡ ok a → r ≡ ok a
as_identity_error-eq-ok (ok x) a h = h
as_identity_error-eq-ok (err e) a h = absurd (ground (arith, h))

module _ (printable : ℕ → Bool) where
  -- what `__post_init__` and the types of the keys have made sure of
  pub record IsIdentity (i : Identity) : Type 0 where
    pub named : validate_identity_name printable (str i.name) ≡ ok i.name
    pub signing_bytes : AreBytes i.signing_private_key
    pub signing_length : length i.signing_private_key ≡ 32
    pub exchange_bytes : AreBytes i.exchange_private_key
    pub exchange_length : length i.exchange_private_key ≡ 32

  pub identity-IsName_sound :
      (v : Value) (t : Text)
      → validate_identity_name printable v ≡ ok t
      → (v ≡ str t) × IsName printable t
  unfolding validate_identity_name
  identity-IsName_sound v t h =
      let (x, e, h1) = bind-eq-ok (validate_name printable type_error value_error v) _ h in
      let (_, _, h2) = bind-eq-ok (require (not (is_path_component x)) value_error) _ h1 in
      subst (λ (t : Text). (v ≡ str t) × IsName printable t) (ok-injective h2)
        (validate_name_sound printable type_error value_error v x e)

  payload-IsReadable : (i : Identity) → IsIdentity i → IsReadable (storage_payload i)
  unfolding distinct_keys
  payload-IsReadable i h = (
    refl,
    (
      refl,
      refl,
      (
        refl,
        name_clean printable i.name (identity-IsName_sound (str i.name) i.name h.named).1,
        (
          refl,
          hex-all_scalar i.signing_private_key h.signing_bytes,
          (refl, hex-all_scalar i.exchange_private_key h.exchange_bytes, tt),
        ),
      ),
    ),
  )

  -- no list and no object inside
  payload_nesting :
      (python : Interpreter) (i : Identity) → nesting (storage_payload i) ≤ suc python.parse_levels
  unfolding nesting
  payload_nesting python i = omega arith

  module _ (c : Crypto) where
    from_raw-payload :
        (i : Identity)
        → IsIdentity i
        → from_raw c printable i.name (sort_value (storage_payload i)) ≡ ok i
    unfolding from_raw sort_value make_identity
    from_raw-payload i h =
        rw
          (
            list_eq_refl,
            decode_private_key-hex i.signing_private_key h.signing_bytes h.signing_length,
            decode_private_key-hex i.exchange_private_key h.exchange_bytes h.exchange_length,
            h.named,
          )
          refl

    module _ (lengths : Lengths c) (correct : Correct c) (python : Interpreter) where
      saved-ok :
          (f : Faults) (before : Disk) (drawn : Text) (salt nonce : Bytes) (i : Identity)
          (passphrase : Value) (s : Store.EncryptedStore)
          → identity_store c printable python (str i.name) passphrase ≡ ok s
          → save c printable python f drawn salt nonce i passphrase (start before) ≡ (
            as_identity_error
                (Store.save python c s f drawn salt nonce
                  (of_value (storage_payload i))
                  (start before)).0,
            (Store.save python c s f drawn salt nonce
                (of_value (storage_payload i))
                (start before)).1,
          )
      unfolding save
      saved-ok f before drawn salt nonce i passphrase s e = rw e refl

      saved-err :
          (f : Faults) (before : Disk) (drawn : Text) (salt nonce : Bytes) (i : Identity)
          (passphrase : Value) (e : Error)
          → identity_store c printable python (str i.name) passphrase ≡ err e
          → save c printable python f drawn salt nonce i passphrase (start before)
            ≡ (err e, start before)
      unfolding save
      saved-err f before drawn salt nonce i passphrase e h = rw h refl

      loaded :
          (d : Disk) (i : Identity) (passphrase raw : Value) (s : Store.EncryptedStore)
          → validate_identity_name printable (str i.name) ≡ ok i.name
          → identity_store c printable python (str i.name) passphrase ≡ ok s
          → Store.load python c s false d ≡ ok raw
          → load c printable python false d (str i.name) passphrase
            ≡ from_raw c printable i.name raw
      unfolding load
      loaded d i passphrase raw s named e h = rw (named, e, h) refl

      -- An identity that was saved is loaded again under its name and passphrase, with its keys.
      pub identity_load-save :
          (f : Faults) (before : Disk) (drawn : Text) (salt nonce : Bytes) (i : Identity)
          (passphrase : Value)
          → IsSound before
          → length nonce ≡ store_nonce_bytes
          → IsIdentity i
          → (save c printable python f drawn salt nonce i passphrase (start before)).0 ≡ ok tt
          → load c printable python false
              (save c printable python f drawn salt nonce i passphrase (start before)).1.disk
              (str i.name)
              passphrase
            ≡ ok i
      identity_load-save f before drawn salt nonce i passphrase sound sized h returned =
          elim (Result-cases (identity_store c printable python (str i.name) passphrase)) [
            | inl (s, e) ↦
                let x = saved-ok f before drawn salt nonce i passphrase s e in
                let stored =
                  load-save python c lengths correct s f before sound drawn salt nonce sized
                    (storage_payload i) (payload-IsReadable i h) (payload_nesting python i)
                    (as_identity_error-eq-ok
                      (Store.save python c s f drawn salt nonce (of_value (storage_payload i))
                        (start before)).0
                      tt (sym (ap (λ p. p.0) x) ∙ returned)) in
                ap (λ p. load c printable python false p.1.disk (str i.name) passphrase) x
                ∙ loaded
                    (Store.save python c s f drawn salt nonce (of_value (storage_payload i))
                      (start before)).1.disk
                    i passphrase (sort_value (storage_payload i)) s h.named e stored
                ∙ from_raw-payload i h
            | inr (e, x) ↦ absurd (
                cc (ap (λ p. p.0) (saved-err f before drawn salt nonce i passphrase e x), returned))
          ]
