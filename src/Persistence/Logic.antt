-- ===== src/Persistence/Logic.antt =====
-- What holds of the disks of a run: a precondition, and for each outcome a postcondition, while every
-- disk on the way keeps an invariant.
use cypher_syntax.Py.Result.{Error, Result, ok, err, os_error, persistence_error}
use cypher_syntax.Py.Exec.{Exec, then_run, ◌>>=◌}
use cypher_syntax.Files.{Disk}
use cypher_syntax.Persistence.{Faults, Run, call, as_persistence_error, raising}
use cypher_syntax.Prelude.{◌≡◌, refl, ◌⊎◌, inl, Bool, true, false, if◌then◌else◌, All}

-- a stage behind a call that may fail: one for each outcome
abbrev pub Either : {A : Type 0} → (A → Disk → Type 0) → (Disk → Type 0) → Result A → Disk → Type 0
Either Good Bad (ok a) d = Good a d
Either Good Bad (err e) d = Bad d

-- What `atomic_write_bytes` lets out: a PersistenceError, or an OSError of the two calls that stand
-- outside the `try` statement, of which the second is made only where `os.fdopen` failed.
abbrev pub IsRaised : Faults → Error → Type 0
IsRaised f e =
    (e ≡ persistence_error)
    ⊎ ((e ≡ os_error) × ((f.lstat ≡ true) ⊎ ((f.fdopen ≡ true) × (f.close_descriptor ≡ true))))

-- the same, behind a call whose every exception is one of these
abbrev pub Raised :
    Faults → {A : Type 0} → (A → Disk → Type 0) → (Disk → Type 0) → Result A → Disk → Type 0
Raised f Good Bad (ok a) d = Good a d
Raised f Good Bad (err e) d = IsRaised f e × Bad d

Either-widen :
    {A : Type 0} (Good : A → Disk → Type 0) (Bad Bad' : Disk → Type 0)
    → ((d : Disk) → Bad d → Bad' d)
    → (o : Result A) (d : Disk) → Either Good Bad o d
    → Either Good Bad' o d
Either-widen Good Bad Bad' w (ok a) d h = h
Either-widen Good Bad Bad' w (err e) d h = w d h

pub Raised-widen :
    (f : Faults) {A : Type 0} (Good : A → Disk → Type 0) (Bad Bad' : Disk → Type 0)
    → ((d : Disk) → Bad d → Bad' d)
    → (o : Result A) (d : Disk) → Raised f Good Bad o d
    → Raised f Good Bad' o d
Raised-widen f Good Bad Bad' w (ok a) d h = h
Raised-widen f Good Bad Bad' w (err e) d h = (h.0, w d h.1)

Either-Raised :
    (f : Faults) {A : Type 0} (Good : A → Disk → Type 0) (Bad : Disk → Type 0) (o : Result A)
    (d : Disk)
    → Either Good Bad o d
    → Raised f Good Bad (as_persistence_error o) d
Either-Raised f Good Bad (ok a) d h = h
Either-Raised f Good Bad (err e) d h = (inl refl, h)

module _ (I : Disk → Type 0) where
  pub record Holds {A : Type 0} (Pre : Disk → Type 0) (m : Exec Run A)
      (Post : Result A → Disk → Type 0) : Type 0 where
    pub apply :
        (r : Run) → All I r.trace → Pre r.disk → All I (m r).1.trace × Post (m r).0 (m r).1.disk

  pub Holds-call :
      {A : Type 0} {Pre : Disk → Type 0} {Post : Result A → Disk → Type 0}
      (f : Disk → Result A × Disk)
      → ((d : Disk) → Pre d → I (f d).1 × Post (f d).0 (f d).1)
      → Holds Pre (call f) Post
  Holds-call f h = record { apply = λ r t p. (((h r.disk p).0, t), (h r.disk p).1) }

  pub Holds-weaken :
      {A : Type 0} {Pre : Disk → Type 0} {Post Post' : Result A → Disk → Type 0} {m : Exec Run A}
      → Holds Pre m Post'
      → ((o : Result A) (d : Disk) → Post' o d → Post o d)
      → Holds Pre m Post
  Holds-weaken {m} h w = record {
    apply = λ r t p. ((h.apply r t p).0, w (m r).0 (m r).1.disk (h.apply r t p).1);
  }

  Holds-then :
      {A B : Type 0} (Mid : Result A → Disk → Type 0) {Post : Result B → Disk → Type 0}
      (k : A → Exec Run B)
      → ((a : A) → Holds (λ d. Mid (ok a) d) (k a) Post)
      → ((e : Error) (d : Disk) → Mid (err e) d → Post (err e) d)
      → (o : Result A) (r : Run) → All I r.trace
      → Mid o r.disk
      → All I (then_run o k r).1.trace × Post (then_run o k r).0 (then_run o k r).1.disk
  Holds-then Mid k h w (ok a) r t p = (h a).apply r t p
  Holds-then Mid k h w (err e) r t p = (t, w e r.disk p)

  pub Holds-bind :
      {A B : Type 0} {Pre : Disk → Type 0} {Mid : Result A → Disk → Type 0}
      {Post : Result B → Disk → Type 0} (m : Exec Run A) (k : A → Exec Run B)
      → Holds Pre m Mid
      → ((a : A) → Holds (λ d. Mid (ok a) d) (k a) Post)
      → ((e : Error) (d : Disk) → Mid (err e) d → Post (err e) d)
      → Holds Pre (m >>= k) Post
  Holds-bind {Mid} {Post} m k h h' w = record {
    apply = λ r t p.
        Holds-then Mid {Post = Post} k h' w (m r).0 (m r).1 (h.apply r t p).0 (h.apply r t p).1;
  }

  -- a step that continues behind an exception too
  pub Holds-seq :
      {A B : Type 0} {Pre : Disk → Type 0} {Mid : Result A → Disk → Type 0}
      {Post : Result B → Disk → Type 0} (m : Exec Run A) (k : Result A → Exec Run B)
      → Holds Pre m Mid
      → ((o : Result A) → Holds (Mid o) (k o) Post)
      → Holds Pre (λ r. k (m r).0 (m r).1) Post
  Holds-seq m k h h' = record {
    apply = λ r t p. (h' (m r).0).apply (m r).1 (h.apply r t p).0 (h.apply r t p).1;
  }

  -- a step whose outcome is dropped
  pub Holds-answer :
      {A B : Type 0} {Pre : Disk → Type 0} {Post : Result B → Disk → Type 0} (o : Result B)
      (m : Exec Run A)
      → Holds Pre m (λ _ d. Post o d)
      → Holds Pre (λ r. (o, (m r).1)) Post
  Holds-answer o m h = record { apply = λ r t p. h.apply r t p }

  pub Holds-pure :
      {A : Type 0} {Pre : Disk → Type 0} {Post : Result A → Disk → Type 0} (o : Result A)
      → ((d : Disk) → Pre d → Post o d)
      → Holds Pre (λ r. (o, r)) Post
  Holds-pure o w = record { apply = λ r t p. (t, w r.disk p) }

  pub Holds-if :
      {A : Type 0} {Pre : Disk → Type 0} {Post : Result A → Disk → Type 0} (test : Bool)
      (m m' : Exec Run A)
      → (test ≡ true → Holds Pre m Post)
      → (test ≡ false → Holds Pre m' Post)
      → Holds Pre (if test then m else m') Post
  Holds-if true m m' h h' = h refl
  Holds-if false m m' h h' = h' refl

  pub Holds-widen :
      {A : Type 0} {Pre : Disk → Type 0} (Good : A → Disk → Type 0) (Bad Bad' : Disk → Type 0)
      {m : Exec Run A}
      → Holds Pre m (Either Good Bad)
      → ((d : Disk) → Bad d → Bad' d)
      → Holds Pre m (Either Good Bad')
  Holds-widen Good Bad Bad' h w = Holds-weaken h (Either-widen Good Bad Bad' w)

  pub Holds-raising :
      (f : Faults) {A : Type 0} {Pre : Disk → Type 0} (Good : A → Disk → Type 0)
      (Bad : Disk → Type 0) (m : Exec Run A)
      → Holds Pre m (Either Good Bad)
      → Holds Pre (raising m) (Raised f Good Bad)
  Holds-raising f Good Bad m h = record {
    apply = λ r t p.
        ((h.apply r t p).0, Either-Raised f Good Bad (m r).0 (m r).1.disk (h.apply r t p).1);
  }
