-- ===== src/Persistence/Atomic.antt =====
-- What `atomic_write_bytes` leaves: the old bytes or the new ones, never a part of either.
use mathlib.Core.Path.{subst}
use cypher_syntax.Py.Result.{
  Error, Result, ok, err, type_error, os_error, require, persistence_error,
}
use cypher_syntax.Py.Exec.{◌>>◌}
use cypher_syntax.Py.Value.{Value, bytes, Text, Bytes}
use cypher_syntax.Files.{
  Disk, content_at, read_bytes, lookup_entry, make_file, set_mode_at, sync_entries, no_change,
}
use cypher_syntax.Files.Crash.{AfterCrash, IsSound}
use cypher_syntax.Persistence.{
  Faults, Run, call, temporary_name, close_directory, sync_and_close, sync_directory, replace_file,
  refuse_symlink, ignoring, raising, atomic_write,
}
use cypher_syntax.Persistence.Logic.{
  Either, IsRaised, Raised, Raised-widen, Holds-weaken, Holds-call, Holds-raising, Holds-if, Holds,
  Holds-bind, Holds-seq, Holds-pure,
}
use cypher_syntax.Persistence.Stages.{IsFilling, temporary-other, IsSafe, IsReplaced, IsAbandoned}
use cypher_syntax.Persistence.Calls.{
  make_file-Either, set_mode_at-IsReplaced, IsDurable, sync_entries-Either,
}
use cypher_syntax.Persistence.Writing.{
  Holds-step, keeping, no_change-Ends, ignoring-Ends, fill_or_clean_up-Raised,
}
use cypher_syntax.Prelude.{
  ◌≡◌, ◌≢◌, refl, sym, ap, ◌∙◌, ◌⊎◌, inl, inr, Bool, true, false, not, Option, none, some, [], All,
}

abbrev pub start : Disk → Run
start d = record { disk = d; trace = [] }

module _ (f : Faults) (before : Disk) (sound : IsSound before) (name drawn : Text)
    (content : Bytes) where
  abbrev temporary : Text
  temporary = temporary_name name drawn

  abbrev I : Disk → Type 0
  I = IsSafe before name temporary content

  abbrev Replaced : Disk → Type 0
  Replaced = IsReplaced before name temporary content

  abbrev Abandoned : Disk → Type 0
  Abandoned = IsAbandoned before name temporary content

  abbrev Ends : (Disk → Type 0) → (Disk → Type 0) → Result (Unit {0}) → Disk → Type 0
  Ends Good Bad = Either (λ _. Good) Bad

  -- what a call that returned has reached: on Windows the directory is not synced
  record IsDone (d : Disk) : Type 0 where
    replaced : Replaced d
    durable :
        f.windows ≡ false → (found : Option Bytes) → AfterCrash d name found → found ≡ some content

  abbrev Durable : Disk → Type 0
  Durable = IsDurable before name temporary (temporary-other name drawn) content

  close_directory-Ends :
      (o : Result (Unit {0}))
      → Holds I (Ends Durable Replaced o) (close_directory f name drawn o) (Ends IsDone Replaced)
  close_directory-Ends (ok u) =
      Holds-bind I {Mid = Ends Durable Replaced} _ _
        (no_change-Ends f before name drawn content f.close_directory Durable Replaced
          (λ d h. h.replaced.safe) (λ d h. h.replaced))
        (λ u. Holds-pure I (ok tt) (λ d h. record { replaced = h.replaced; durable = λ w. h.only }))
        (λ e d h. h)
  close_directory-Ends (err e) =
      Holds-bind I {Mid = Ends Replaced Replaced} _ _
        (no_change-Ends f before name drawn content f.close_directory Replaced Replaced
          (λ d h. h.safe) (λ d h. h))
        (λ u. Holds-pure I (err e) (λ d h. h)) (λ e d h. h)

  sync_and_close-Ends : Holds I Replaced (sync_and_close f name drawn) (Ends IsDone Replaced)
  sync_and_close-Ends =
      Holds-seq I (call (sync_entries f.sync_directory)) (close_directory f name drawn)
        (Holds-step I (λ _. Durable) Replaced (sync_entries f.sync_directory)
          (λ u d h. h.replaced.safe) (λ d h. h.safe)
          (λ d h.
            sync_entries-Either before name temporary (temporary-other name drawn) content
              f.sync_directory d h))
        close_directory-Ends

  sync_directory-Ends : Holds I Replaced (sync_directory f name drawn) (Ends IsDone Replaced)
  sync_directory-Ends =
      Holds-if I f.windows _ _
        (λ e. Holds-pure I (ok tt) (λ d h. record { replaced = h; durable = λ w. cc }))
        (λ e.
          Holds-bind I {Mid = Ends Replaced Replaced} _ _
            (no_change-Ends f before name drawn content f.open_directory Replaced Replaced
              (λ d h. h.safe) (λ d h. h))
            (λ u. sync_and_close-Ends) (λ e d h. h))

  -- a call that raised has left the name alone, or has moved the file and not synced the directory
  abbrev Failed : Disk → Type 0
  Failed d = Abandoned d ⊎ Replaced d

  abbrev Start : Disk → Type 0
  Start d = d ≡ before

  abbrev Raises : (Disk → Type 0) → (Disk → Type 0) → Result (Unit {0}) → Disk → Type 0
  Raises Good Bad = Raised f (λ _. Good) Bad

  -- behind `os.replace`: the mode of the destination, and the sync of the directory
  finish-Raised :
      Holds I Replaced
        (raising (ignoring (call (set_mode_at f.chmod 0o600 name)) >> sync_directory f name drawn))
        (Raises IsDone Replaced)
  finish-Raised =
      Holds-raising I f (λ _. IsDone) Replaced _
        (Holds-bind I {Mid = Ends Replaced Replaced} _ _
          (ignoring-Ends f before name drawn content Replaced
            (call (set_mode_at f.chmod 0o600 name))
            (keeping f before name drawn content Replaced (set_mode_at f.chmod 0o600 name)
              (λ d h. h.safe)
              (λ d h.
                set_mode_at-IsReplaced before name temporary (temporary-other name drawn) content
                  f.chmod 0o600 d h)))
          (λ u. sync_directory-Ends) (λ e d h. h))

  replace_file-Raised : Holds I Start (replace_file f name drawn content) (Raises IsDone Failed)
  replace_file-Raised =
      Holds-bind I {Mid = Raised f (IsFilling before name temporary content) Abandoned} _ _
        (Holds-raising I f (IsFilling before name temporary content) Abandoned
          (call (make_file f.mkstemp temporary))
          (Holds-step I (IsFilling before name temporary content) Abandoned
            (make_file f.mkstemp temporary) (λ i d h. h.safe) (λ d h. h.safe) made))
        (λ i.
          Holds-bind I {Mid = Raises Replaced Failed} _ _
            (Holds-weaken I (fill_or_clean_up-Raised f before name drawn content i)
              (Raised-widen f (λ _. Replaced) Abandoned Failed (λ d h. inl h)))
            (λ u.
              Holds-weaken I finish-Raised
                (Raised-widen f (λ _. IsDone) Replaced Failed (λ d h. inr h)))
            (λ e d h. h))
        (λ e d h. (h.0, inl h.1))
    where
      made :
          (d : Disk)
          → Start d
          → Either
              (IsFilling before name temporary content)
              Abandoned
              (make_file f.mkstemp temporary d).0
              (make_file f.mkstemp temporary d).1
      made d e =
          subst
            (λ (d : Disk).
              Either (IsFilling before name temporary content) Abandoned
                (make_file f.mkstemp temporary d).0 (make_file f.mkstemp temporary d).1)
            (sym e)
            (make_file-Either before name temporary (temporary-other name drawn) content f.mkstemp
              sound)

  Start-Abandoned : (d : Disk) → Start d → Abandoned d
  Start-Abandoned d e =
      subst (λ d. Abandoned d) (sym e) (record { safe = λ found h. inl h; untouched = refl })

  looked :
      (fails : Bool)
      → f.lstat ≡ fails
      → (d : Disk) → Start d
      → I (no_change fails d).1 × Raises Start Start (no_change fails d).0 (no_change fails d).1
  looked true e d h = ((Start-Abandoned d h).safe, (inr (refl, inl e), h))
  looked false e d h = ((Start-Abandoned d h).safe, h)

  refused :
      (symlink : Bool) (d : Disk)
      → Start d
      → Raises Start Start (require (not symlink) persistence_error) d
  refused true d h = (inl refl, h)
  refused false d h = h

  refuse_symlink-Raised : Holds I Start (refuse_symlink f name drawn) (Raises Start Start)
  refuse_symlink-Raised =
      Holds-bind I {Mid = Raises Start Start} _ _
        (Holds-call I (no_change f.lstat) (looked f.lstat refl))
        (λ u.
          Holds-pure I (require (not f.symlink) persistence_error) (λ d h. refused f.symlink d h))
        (λ e d h. h)

  atomic_write-Raised :
      Holds I Start (atomic_write f name drawn (bytes content)) (Raises IsDone Failed)
  unfolding atomic_write
  atomic_write-Raised =
      Holds-bind I {Mid = Raises Start Start} _ _
        (Holds-bind I {Mid = Raises Start Start} _ _
          (Holds-raising I f (λ _. Start) Start (call (no_change f.mkdir))
            (no_change-Ends f before name drawn content f.mkdir Start Start
              (λ d h. (Start-Abandoned d h).safe) (λ d h. h)))
          (λ u. refuse_symlink-Raised) (λ e d h. h))
        (λ u. replace_file-Raised) (λ e d h. (h.0, inl (Start-Abandoned d h.1)))

  atomic_write-run :
      All I (atomic_write f name drawn (bytes content) (start before)).1.trace
      × Raises IsDone Failed
          (atomic_write f name drawn (bytes content) (start before)).0
          (atomic_write f name drawn (bytes content) (start before)).1.disk
  atomic_write-run = atomic_write-Raised.apply (start before) tt refl

  -- Whichever calls fail, and behind whichever of its calls a crash comes: what is found at the
  -- destination then is the whole new content, or what a crash before the write might have shown.
  pub atomic_write-IsSafe :
      All
        (λ d.
          (found : Option Bytes)
          → AfterCrash d name found
          → AfterCrash before name found ⊎ (found ≡ some content))
        (atomic_write f name drawn (bytes content) (start before)).1.trace
  atomic_write-IsSafe = atomic_write-run.0

  pub atomic_write-IsDone :
      (atomic_write f name drawn (bytes content) (start before)).0 ≡ ok tt
      → (read_bytes (atomic_write f name drawn (bytes content) (start before)).1.disk name
          ≡ some content)
        × (lookup_entry
              (temporary_name name drawn)
              (atomic_write f name drawn (bytes content) (start before)).1.disk.entries
            ≡ none)
        × (f.windows ≡ false
            → (found : Option Bytes)
            → AfterCrash
                (atomic_write f name drawn (bytes content) (start before)).1.disk
                name
                found
            → found ≡ some content)
  atomic_write-IsDone returned =
      let d = (atomic_write f name drawn (bytes content) (start before)).1.disk in
      let done = subst (λ o. Raises IsDone Failed o d) returned atomic_write-run.1 in
      (
        ap (content_at d) done.replaced.named ∙ ap some done.replaced.whole,
        done.replaced.moved,
        done.durable,
      )

  atomic_write-failed :
      (e : Error)
      → (atomic_write f name drawn (bytes content) (start before)).0 ≡ err e
      → IsRaised f e
        × (let d = (atomic_write f name drawn (bytes content) (start before)).1.disk in
            (read_bytes d name ≡ read_bytes before name) ⊎ (read_bytes d name ≡ some content))
  atomic_write-failed e raised =
      let d = (atomic_write f name drawn (bytes content) (start before)).1.disk in
      let failed = subst (λ o. Raises IsDone Failed o d) raised atomic_write-run.1 in
      (
        failed.0,
        elim failed.1 [
          | inl h ↦ inl h.untouched
          | inr h ↦ inr (ap (content_at d) h.named ∙ ap some h.whole)
        ],
      )

module _ (f : Faults) (before : Disk) (sound : IsSound before) (name drawn : Text) where
  -- A write that raises raises a TypeError, of a value that is not a byte string, or a PersistenceError,
  -- or an OSError: of the look at the destination for a symbolic link, or of the close of the descriptor
  -- where `os.fdopen` failed before. The destination reads as it did before, or as the byte string that
  -- was to be written. The conditions: the disk is sound, and the system calls raise nothing but OSError.
  pub atomic_write-raises :
      (given : Value) (e : Error)
      → (atomic_write f name drawn given (start before)).0 ≡ err e
      → (((e ≡ type_error) × ((content : Bytes) → given ≢ bytes content))
          ⊎ (e ≡ persistence_error)
          ⊎ ((e ≡ os_error)
              × ((f.lstat ≡ true) ⊎ ((f.fdopen ≡ true) × (f.close_descriptor ≡ true)))))
        × ((read_bytes (atomic_write f name drawn given (start before)).1.disk name
              ≡ read_bytes before name)
            ⊎ ((content : Bytes) × (given ≡ bytes content)
                × (read_bytes (atomic_write f name drawn given (start before)).1.disk name
                    ≡ some content)))
  unfolding atomic_write
  atomic_write-raises (bytes content) e raised =
      let failed = atomic_write-failed f before sound name drawn content e raised in
      (inr failed.0, elim failed.1 [ inl same ↦ inl same | inr new ↦ inr (content, refl, new) ])
  atomic_write-raises _ e raised = (inl (cc, λ content. cc), inl refl)
