-- ===== src/Persistence/Writing.antt =====
-- The stages of `atomic_write_bytes` under its calls in a row: the temporary file is filled and moved to
-- the name, or removed.
use cypher_syntax.Py.Result.{Error, Result, ok, err, persistence_error}
use cypher_syntax.Py.Exec.{Exec, ◌>>◌}
use cypher_syntax.Py.Value.{Text, Bytes}
use cypher_syntax.Files.{Disk, write_file, set_mode, replace, unlink, no_change}
use cypher_syntax.Persistence.{
  Faults, Run, call, ignoring, temporary_name, write_handle, close_handle, with_handle, prepare,
  fill, fill_opened, as_persistence_error, clean_up, fill_or_clean_up,
}
use cypher_syntax.Persistence.Logic.{
  Either, IsRaised, Raised, Holds-widen, Holds, Holds-call, Holds-weaken, Holds-bind, Holds-seq,
  Holds-answer, Holds-pure,
}
use cypher_syntax.Persistence.Stages.{
  temporary-other, IsSafe, IsFilling, IsFull, IsReady, IsReplaced, IsAbandoned,
  IsFilling-IsAbandoned,
}
use cypher_syntax.Persistence.Calls.{
  write_file-IsFilling, write_file-Either, sync_file-Either, set_mode-IsFilling, replace-Either,
  unlink-IsAbandoned,
}
use cypher_syntax.Prelude.{ℕ, ◌≡◌, refl, inl, inr, Bool, true, false, take, list_eq}

Either-kept :
    {A : Type 0} (I : Disk → Type 0) (Good : A → Disk → Type 0) (Bad : Disk → Type 0)
    → ((a : A) (d : Disk) → Good a d → I d)
    → ((d : Disk) → Bad d → I d)
    → (o : Result A) (d : Disk) → Either Good Bad o d
    → I d
Either-kept I Good Bad good bad (ok a) d x = good a d x
Either-kept I Good Bad good bad (err e) d x = bad d x

-- one call between two stages that keep the invariant
pub Holds-step :
    {A : Type 0} (I : Disk → Type 0) {Pre : Disk → Type 0} (Good : A → Disk → Type 0)
    (Bad : Disk → Type 0) (f : Disk → Result A × Disk)
    → ((a : A) (d : Disk) → Good a d → I d)
    → ((d : Disk) → Bad d → I d)
    → ((d : Disk) → Pre d → Either Good Bad (f d).0 (f d).1)
    → Holds I Pre (call f) (Either Good Bad)
Holds-step I Good Bad f good bad h =
    Holds-call I f (λ d p. (Either-kept I Good Bad good bad (f d).0 (f d).1 (h d p), h d p))

pub Either-same :
    {A : Type 0} (P : Disk → Type 0) (o : Result A) (d : Disk) → P d → Either (λ _. P) P o d
Either-same P (ok a) d h = h
Either-same P (err e) d h = h

pub Either-both :
    (P : Disk → Type 0) (o : Result (Unit {0})) (d : Disk) → Either (λ _. P) P o d → P d
Either-both P (ok a) d h = h
Either-both P (err e) d h = h

failing-kept : (P : Disk → Type 0) (fails : Bool) (d : Disk) → P d → P (no_change fails d).1
failing-kept P true d h = h
failing-kept P false d h = h

-- behind a call that changes nothing: that it raised, where it did
failing-known :
    (P : Disk → Type 0) (fails : Bool) (d : Disk)
    → P d
    → Either (λ _. P) (λ d. P d × (fails ≡ true)) (no_change fails d).0 (no_change fails d).1
failing-known P true d h = (h, refl)
failing-known P false d h = h

module _ (f : Faults) (before : Disk) (name drawn : Text) (content : Bytes) where
  abbrev temporary : Text
  temporary = temporary_name name drawn

  abbrev I : Disk → Type 0
  I = IsSafe before name temporary content

  abbrev Filling : ℕ → Disk → Type 0
  Filling = IsFilling before name temporary content

  abbrev Full : ℕ → Disk → Type 0
  Full = IsFull before name temporary content

  abbrev Ready : ℕ → Disk → Type 0
  Ready = IsReady before name temporary content

  abbrev Replaced : Disk → Type 0
  Replaced = IsReplaced before name temporary content

  abbrev Abandoned : Disk → Type 0
  Abandoned = IsAbandoned before name temporary content

  abbrev apart : list_eq temporary name ≡ false
  apart = temporary-other name drawn

  abbrev Ends : (Disk → Type 0) → (Disk → Type 0) → Result (Unit {0}) → Disk → Type 0
  Ends Good Bad = Either (λ _. Good) Bad

  -- a call that keeps a stage, whether it fails or not
  pub keeping :
      (P : Disk → Type 0) (c : Disk → Result (Unit {0}) × Disk)
      → ((d : Disk) → P d → I d)
      → ((d : Disk) → P d → P (c d).1)
      → Holds I P (call c) (Ends P P)
  keeping P c safe h =
      Holds-step I (λ _. P) P c (λ u d x. safe d x) safe
        (λ d x. Either-same P (c d).0 (c d).1 (h d x))

  pub no_change-Ends :
      (fails : Bool) (P Bad : Disk → Type 0)
      → ((d : Disk) → P d → I d)
      → ((d : Disk) → P d → Bad d)
      → Holds I P (call (no_change fails)) (Ends P Bad)
  no_change-Ends fails P Bad safe bad =
      Holds-widen I (λ _. P) P Bad
        (keeping P (no_change fails) safe (λ d h. failing-kept P fails d h)) bad

  writing-Ends :
      (fails : Bool) (i : ℕ) (part whole : Bytes)
      → Holds I (Filling i) (call (write_file fails i part whole)) (Ends (Filling i) (Filling i))
  writing-Ends fails i part whole =
      keeping (Filling i) (write_file fails i part whole) (λ d h. h.safe)
        (λ d h. write_file-IsFilling before name temporary apart content fails i part whole d h)

  write_handle-Ends :
      (i : ℕ)
      → Holds I (Filling i) (write_handle f name drawn i content) (Ends (Ready i) (Filling i))
  write_handle-Ends i =
      Holds-bind I {Mid = Ends (Full i) (Filling i)} _ _
        (Holds-bind I {Mid = Ends (Filling i) (Filling i)} _ _
          (writing-Ends f.write i (take f.written content) (take f.written content))
          (λ u.
            Holds-step I (λ _. Full i) (Filling i) _ (λ u d h. h.filling.safe) (λ d h. h.safe)
              (λ d h.
                write_file-Either before name temporary apart content f.flush i
                  (take f.flushed content) d h))
          (λ e d h. h))
        (λ u.
          Holds-step I (λ _. Ready i) (Filling i) _ (λ u d h. h.full.filling.safe) (λ d h. h.safe)
            (λ d h. sync_file-Either before name temporary apart content f.fsync i d h))
        (λ e d h. h)

  -- behind an exception the file is being written still
  close_handle-Ends :
      (i : ℕ) (o : Result (Unit {0}))
      → Holds I
          (Ends (Ready i) (Filling i) o)
          (close_handle f name drawn i content o)
          (Ends (Ready i) (Filling i))
  close_handle-Ends i (ok u) =
      no_change-Ends f.close (Ready i) (Filling i) (λ d h. h.full.filling.safe)
        (λ d h. h.full.filling)
  close_handle-Ends i (err e) =
      Holds-answer I (err e)
        (call (write_file false i (take f.closed content) (take f.closed content)))
        (Holds-weaken I (writing-Ends false i (take f.closed content) (take f.closed content))
          (λ o d h. Either-both (Filling i) o d h))

  with_handle-Ends :
      (i : ℕ)
      → Holds I (Filling i) (with_handle f name drawn i content) (Ends (Ready i) (Filling i))
  with_handle-Ends i =
      Holds-seq I (write_handle f name drawn i content) (close_handle f name drawn i content)
        (write_handle-Ends i) (close_handle-Ends i)

  pub ignoring-Ends :
      (P : Disk → Type 0) (m : Exec Run (Unit {0}))
      → Holds I P m (Ends P P)
      → Holds I P (ignoring m) (Ends P P)
  ignoring-Ends P m h = Holds-answer I (ok tt) m (Holds-weaken I h (Either-both P))

  prepare-Ends :
      (i : ℕ)
      → Holds I
          (Filling i)
          (prepare f name drawn i)
          (Ends (Filling i) (λ d. Filling i d × (f.fdopen ≡ true)))
  prepare-Ends i =
      Holds-bind I {Mid = Ends (Filling i) (λ d. ⊥)} _ _
        (Holds-answer I (ok tt) (call (set_mode f.fchmod 0o600 i)) (
          Holds-weaken I
            (keeping (Filling i) (set_mode f.fchmod 0o600 i) (λ d h. h.safe)
              (λ d h. set_mode-IsFilling before name temporary apart content f.fchmod 0o600 i d h))
            (Either-both (Filling i))))
        (λ u.
          Holds-step I (λ _. Filling i) (λ d. Filling i d × (f.fdopen ≡ true)) (no_change f.fdopen)
            (λ u d h. h.safe) (λ d h. h.0.safe) (failing-known (Filling i) f.fdopen))
        (λ e d h. absurd h)

  fill-Ends :
      (i : ℕ) → Holds I (Filling i) (fill f name drawn i content) (Ends Replaced (Filling i))
  fill-Ends i =
      Holds-bind I {Mid = Ends (Ready i) (Filling i)} _ _ (with_handle-Ends i)
        (λ u.
          Holds-step I (λ _. Replaced) (Filling i) (replace f.replace temporary name)
            (λ u d h. h.safe) (λ d h. h.safe)
            (λ d h. replace-Either before name temporary apart content f.replace i d h))
        (λ e d h. h)

  abbrev Raises : (Disk → Type 0) → (Disk → Type 0) → Result (Unit {0}) → Disk → Type 0
  Raises Good Bad = Raised f (λ _. Good) Bad

  -- the temporary file removed, or the removal tried, and the exception on its way
  remove-Raised :
      (i : ℕ) (e : Error)
      → IsRaised f e
      → Holds I
          (Filling i)
          (ignoring (call (unlink f.unlink temporary)) >> λ r. (err e, r))
          (Raises Replaced Abandoned)
  remove-Raised i e class =
      Holds-bind I {Mid = Ends Abandoned (λ d. ⊥)} _ _
        (Holds-answer I (ok tt) (call (unlink f.unlink temporary)) (
          Holds-call I (unlink f.unlink temporary) (λ d h.
            let kept =
              unlink-IsAbandoned before name temporary apart content f.unlink d
                (IsFilling-IsAbandoned before name temporary content h) in
            (kept.safe, kept))))
        (λ u. Holds-pure I (err e) (λ d h. (class, h))) (λ e' d h. absurd h)

  -- where the close of the descriptor fails, its exception goes out
  abbrev Closes : ℕ → Result (Unit {0}) → Disk → Type 0
  Closes i = Raises (Filling i) Abandoned

  closing :
      (i : ℕ) (fails : Bool)
      → f.close_descriptor ≡ fails
      → (d : Disk) → Filling i d × (f.fdopen ≡ true)
      → I (no_change fails d).1 × Closes i (no_change fails d).0 (no_change fails d).1
  closing i true e d (h, opened) =
      (h.safe, (inr (refl, inr (opened, e)), IsFilling-IsAbandoned before name temporary content h))
  closing i false e d (h, opened) = (h.safe, h)

  close_descriptor-Raised :
      (i : ℕ) (e : Error)
      → IsRaised f e
      → Holds I
          (λ d. Filling i d × (f.fdopen ≡ true))
          (call (no_change f.close_descriptor)
            >> ignoring (call (unlink f.unlink temporary))
            >> λ r. (err e, r))
          (Raises Replaced Abandoned)
  close_descriptor-Raised i e class =
      Holds-bind I {Mid = Raises Abandoned Abandoned} _ _
        (Holds-bind I {Mid = Closes i} _ _
          (Holds-call I (no_change f.close_descriptor) (closing i f.close_descriptor refl))
          (λ u. Holds-answer I (ok tt) (call (unlink f.unlink temporary)) (
            Holds-call I (unlink f.unlink temporary) (λ d h.
              let kept =
                unlink-IsAbandoned before name temporary apart content f.unlink d
                  (IsFilling-IsAbandoned before name temporary content h) in
              (kept.safe, kept))))
          (λ e' d h. h))
        (λ u. Holds-pure I (err e) (λ d h. (class, h))) (λ e' d h. h)

  pub fill_or_clean_up-Raised :
      (i : ℕ)
      → Holds I (Filling i) (fill_or_clean_up f name drawn i content) (Raises Replaced Abandoned)
  fill_or_clean_up-Raised i =
      Holds-seq I (prepare f name drawn i) (fill_opened f name drawn i content) (prepare-Ends i)
        fill_opened-Raised
    where
      cleaned :
          (o : Result (Unit {0}))
          → Holds I
              (Ends Replaced (Filling i) o)
              (clean_up f name drawn false (as_persistence_error o))
              (Raises Replaced Abandoned)
      cleaned (ok u) = Holds-pure I (ok u) (λ d h. h)
      cleaned (err e) = remove-Raised i persistence_error (inl refl)

      fill_opened-Raised :
          (o : Result (Unit {0}))
          → Holds I
              (Ends (Filling i) (λ d. Filling i d × (f.fdopen ≡ true)) o)
              (fill_opened f name drawn i content o)
              (Raises Replaced Abandoned)
      fill_opened-Raised (ok u) =
          Holds-seq I (fill f name drawn i content)
            (λ o. clean_up f name drawn false (as_persistence_error o)) (fill-Ends i) cleaned
      fill_opened-Raised (err e) = close_descriptor-Raised i persistence_error (inl refl)
