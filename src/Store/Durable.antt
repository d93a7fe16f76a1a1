-- ===== src/Store/Durable.antt =====
-- `save` and `load` on a disk that may fail: the file holds the old object or the new one.
use mathlib.Core.Path.{subst}
use cypher_syntax.Py.Result.{Error, Result, ok, err, Result-cases}
use cypher_syntax.Py.Value.{Value, bytes, Bytes}
use cypher_syntax.Json.Write.{sort_value}
use cypher_syntax.Json.Datum.{Interpreter, of_value, nesting}
use cypher_syntax.Json.Written.{IsReadable}
use cypher_syntax.Crypto.{Crypto, Lengths, Correct}
use cypher_syntax.Files.{Disk, read_bytes}
use cypher_syntax.Files.Crash.{AfterCrash, IsSound, All-map}
use cypher_syntax.Persistence.{Faults, Run, atomic_write}
use cypher_syntax.Persistence.Atomic.{
  start, atomic_write-IsSafe, atomic_write-IsDone, atomic_write-raises,
}
use cypher_syntax.Store.{
  store_nonce_bytes, EncryptedStore, seal_object, open_found, storing, save, load,
}
use cypher_syntax.Store.Roundtrip.{open_blob-seal_object}
use cypher_syntax.Prelude.{
  suc, ◌≤◌, ◌≡◌, refl, sym, ap, ◌∙◌, ◌⊎◌, inl, inr, false, Option, some, arith, length, All,
}

bytes-injective : {b b' : Bytes} → bytes b ≡ bytes b' → b ≡ b'
bytes-injective h = cc

storing-eq-ok : (r : Result (Unit {0})) → storing r ≡ ok tt → r ≡ ok tt
storing-eq-ok (ok u) h = h
storing-eq-ok (err e) h = absurd (ground (arith, h))

storing-eq-err :
    (r : Result (Unit {0})) (e : Error) → storing r ≡ err e → (e' : Error) × (r ≡ err e')
storing-eq-err (ok u) e h = absurd (cc)
storing-eq-err (err e') e h = (e', refl)

module _ (python : Interpreter) (c : Crypto) (lengths : Lengths c) (correct : Correct c)
    (s : EncryptedStore) (f : Faults) (before : Disk) (sound : IsSound before)
    (drawn salt nonce : Bytes) (sized : length nonce ≡ store_nonce_bytes) (obj : Value)
    (readable : IsReadable obj) (shallow : nesting obj ≤ suc python.parse_levels) where
  abbrev saved : Result (Unit {0}) × Run
  saved = save python c s f drawn salt nonce (of_value obj) (start before)

  abbrev written : Bytes → Result (Unit {0}) × Run
  written blob = atomic_write f s.path drawn (bytes blob) (start before)

  saved-ok :
      (blob : Bytes)
      → seal_object python c s (of_value obj) salt nonce ≡ ok blob
      → saved ≡ (storing (written blob).0, (written blob).1)
  unfolding save
  saved-ok blob h = rw h refl

  saved-err :
      (e : Error)
      → seal_object python c s (of_value obj) salt nonce ≡ err e
      → saved ≡ (err e, start before)
  unfolding save
  saved-err e h = rw h refl

  reopened :
      (blob : Bytes) (found : Option Bytes)
      → seal_object python c s (of_value obj) salt nonce ≡ ok blob
      → found ≡ some blob
      → open_found python c s found ≡ ok (sort_value obj)
  reopened blob found h e =
      ap (open_found python c s) e
      ∙ open_blob-seal_object python c lengths correct s obj salt nonce blob readable shallow sized
          h

  abbrev New : Disk → Type 0
  New d =
      (found : Option Bytes)
      → AfterCrash d s.path found
      → AfterCrash before s.path found ⊎ (open_found python c s found ≡ ok (sort_value obj))

  -- An object that was saved is loaded again, the keys of its objects sorted. The conditions: it is one
  -- that JSON keeps (it is built of dictionaries with distinct text keys, lists, texts without surrogates,
  -- integers, Booleans and None; without floats, tuples, byte strings and other keys), `json.loads` has
  -- the stack for its nesting, the nonce has twelve bytes, the disk is sound, and the
  -- cryptography has the lengths and the laws that Crypto names. Both calls run at one depth of the stack.
  pub load-save :
      (save python c s f drawn salt nonce (of_value obj) (start before)).0 ≡ ok tt
      → load python c s false
          (save python c s f drawn salt nonce (of_value obj) (start before)).1.disk
        ≡ ok (sort_value obj)
  load-save returned = elim (Result-cases (seal_object python c s (of_value obj) salt nonce)) [
    | inl (blob, h) ↦
        let x = saved-ok blob h in
        let done =
          atomic_write-IsDone f before sound s.path drawn blob
            (storing-eq-ok (written blob).0 (sym (ap (λ p. p.0) x) ∙ returned)) in
        ap (λ p. load python c s false p.1.disk) x
        ∙ reopened blob (read_bytes (written blob).1.disk s.path) h done.0
    | inr (e, h) ↦ absurd (let x = ap (λ p. p.0) (saved-err e h) in cc (x, returned))
  ]

  -- Whichever calls fail, and behind whichever call of `save` a crash comes: what is found at the path
  -- then opens to the new object, its keys sorted, or is what a crash before the call might have shown.
  -- The conditions: the object is one that JSON keeps (it is built of dictionaries with distinct text keys,
  -- lists, texts without surrogates, integers, Booleans and None; without floats, tuples, byte strings and
  -- other keys), `json.loads` has the stack for its nesting, the nonce has twelve bytes, the disk is
  -- sound, and the cryptography has the lengths and the laws that Crypto names. Both calls run at one depth
  -- of the stack.
  pub save-IsSafe :
      All
        (λ d.
          (found : Option Bytes)
          → AfterCrash d s.path found
          → AfterCrash before s.path found ⊎ (open_found python c s found ≡ ok (sort_value obj)))
        (save python c s f drawn salt nonce (of_value obj) (start before)).1.trace
  save-IsSafe = elim (Result-cases (seal_object python c s (of_value obj) salt nonce)) [
    | inl (blob, h) ↦
        subst (λ p. All New p.1.trace) (sym (saved-ok blob h))
          (All-map
            (λ d.
              (found : Option Bytes)
              → AfterCrash d s.path found
              → AfterCrash before s.path found ⊎ (found ≡ some blob))
            New (written blob).1.trace
            (λ d safe found x. elim (safe found x) [
              | inl old ↦ inl old
              | inr new ↦ inr (reopened blob found h new)
            ])
            (atomic_write-IsSafe f before sound s.path drawn blob))
    | inr (e, h) ↦ subst (λ p. All New p.1.trace) (sym (saved-err e h)) tt
  ]

  -- A `save` that raises leaves the store so that `load` returns or raises what it did before, or
  -- returns the new object, its keys sorted. The conditions: the object is one that JSON keeps (it is
  -- built of dictionaries with distinct text keys, lists, texts without surrogates, integers, Booleans and
  -- None; without floats, tuples, byte strings and other keys), `json.loads` has the stack for its
  -- nesting, the nonce has twelve bytes, the disk is sound, and the
  -- cryptography has the lengths and the laws that Crypto names. Both calls run at one depth of the stack.
  pub save_raises :
      (e : Error)
      → (save python c s f drawn salt nonce (of_value obj) (start before)).0 ≡ err e
      → (load python c s false
            (save python c s f drawn salt nonce (of_value obj) (start before)).1.disk
          ≡ load python c s false before)
        ⊎ (load python c s false
              (save python c s f drawn salt nonce (of_value obj) (start before)).1.disk
            ≡ ok (sort_value obj))
  save_raises e raised = elim (Result-cases (seal_object python c s (of_value obj) salt nonce)) [
    | inl (blob, h) ↦
        let x = saved-ok blob h in
        let (e', failed) = storing-eq-err (written blob).0 e (sym (ap (λ p. p.0) x) ∙ raised) in
        elim (atomic_write-raises f before sound s.path drawn (bytes blob) e' failed).1 [
          | inl same ↦
              inl (ap (λ p. load python c s false p.1.disk) x ∙ ap (open_found python c s) same)
          | inr (content, same, new) ↦ inr (
              ap (λ p. load python c s false p.1.disk) x
              ∙ reopened blob (read_bytes (written blob).1.disk s.path) h
                  (new ∙ ap some (sym (bytes-injective same))))
        ]
    | inr (e', h) ↦ inl (ap (λ p. load python c s false p.1.disk) (saved-err e' h))
  ]
