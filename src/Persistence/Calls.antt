-- ===== src/Persistence/Calls.antt =====
-- What each call of `atomic_write_bytes` does to the stage that it finds.
use mathlib.Core.Path.{subst}
use cypher_syntax.Py.Value.{Text, Bytes}
use cypher_syntax.Files.{
  File, Disk, lookup_entry, remove_entry, put_entry, content_at, with_entries, with_file, make_file,
  is_free, write_file, sync_file, set_mode, set_mode_at, replace, unlink, sync_entries, failing,
}
use cypher_syntax.Files.Crash.{
  AfterCrash, IsApart, IsBelow, IsSound, All-map, lookup-remove, lookup-put, AfterCrash-with_file,
  AfterCrash-with_entries, AfterCrash-mode,
}
use cypher_syntax.Persistence.Logic.{Either}
use cypher_syntax.Persistence.Stages.{
  IsFilling, IsFull, IsReady, IsReplaced, IsAbandoned, content_at-other, with_file-IsFilling,
  with_file-IsFull, with_file-IsReady, with_entries-IsAbandoned, with_entries-IsReplaced, found_new,
}
use cypher_syntax.Prelude.{
  ℕ, suc, ◌≡◌, refl, sym, ap, ◌∙◌, ◌≢◌, inl, inr, Bool, true, false, not, ◌||◌, Option, none, some,
  [], ◌∷◌, arith, ==_iff, Bool-cases, list_eq, list_eq_refl, list_eq_iff,
}

failing-Either :
    (Good Bad : Disk → Type 0) (fails : Bool) (d d' : Disk)
    → Bad d
    → Good d'
    → Either (λ (_ : Unit {0}). Good) Bad (failing fails d d').0 (failing fails d d').1
failing-Either Good Bad true d d' bad good = bad
failing-Either Good Bad false d d' bad good = good

list_eq_sym : (s t : Text) → list_eq s t ≡ false → list_eq t s ≡ false
list_eq_sym s t h = ground (arith, list_eq_iff s t, list_eq_iff t s, λ (e : t ≡ s). sym e)

module _ (before : Disk) (name temporary : Text) (apart_names : list_eq temporary name ≡ false)
    (content : Bytes) where
  abbrev Filling : ℕ → Disk → Type 0
  Filling i = IsFilling before name temporary content i

  IsApart-next : IsSound before → IsApart before.next name before
  IsApart-next sound =
      All-map (IsBelow before.next) (λ entries. lookup_entry name entries ≢ some before.next)
        (before.entries ∷ before.earlier)
        (λ entries below e. absurd (omega (arith, below name before.next e))) sound

  abbrev created : Disk
  created =
      with_entries (put_entry temporary before.next before.entries)
        (record (with_file before.next (record { content = []; synced = false; mode = 0o600 })
          before) { next = suc before.next })

  name_kept :
      lookup_entry name (put_entry temporary before.next before.entries)
      ≡ lookup_entry name before.entries
  name_kept = rw (lookup-put name temporary before.next before.entries, apart_names) refl

  created-IsFilling : IsSound before → Filling before.next created
  created-IsFilling sound =
      let file : File = record { content = []; synced = false; mode = 0o600 } in
      let kept = with_file before.next file before in
      let apart = IsApart-next sound in
      record {
        safe = λ found h. inl (
            AfterCrash-with_file before.next file before name found apart (
              AfterCrash-with_entries (put_entry temporary before.next before.entries) kept name
                found name_kept h));
        untouched =
            ap (content_at created) name_kept
            ∙ content_at-other before.next file before (lookup_entry name before.entries) apart.0;
        apart = (subst (λ o. o ≢ some before.next) (sym name_kept) apart.0, apart);
        present = rw list_eq_refl refl;
      }

  pub make_file-Either :
      (fails : Bool)
      → IsSound before
      → Either Filling
          (IsAbandoned before name temporary content)
          (make_file fails temporary before).0
          (make_file fails temporary before).1
  unfolding make_file
  make_file-Either fails sound =
      elim (Bool-cases (fails || not (is_free (lookup_entry temporary before.entries)))) [
        | inl e ↦ rw (e, Either, make_file) (record { safe = λ found h. inl h; untouched = refl })
        | inr e ↦ rw (e, Either, make_file) (created-IsFilling sound)
      ]

  pub write_file-IsFilling :
      (fails : Bool) (i : ℕ) (part whole : Bytes) (d : Disk)
      → Filling i d
      → Filling i (write_file fails i part whole d).1
  unfolding write_file
  write_file-IsFilling true i part whole d h =
      with_file-IsFilling before name temporary content i _ d h
  write_file-IsFilling false i part whole d h =
      with_file-IsFilling before name temporary content i _ d h

  pub write_file-Either :
      (fails : Bool) (i : ℕ) (part : Bytes) (d : Disk)
      → Filling i d
      → Either
          (λ (_ : Unit {0}). IsFull before name temporary content i)
          (Filling i)
          (write_file fails i part content d).0
          (write_file fails i part content d).1
  unfolding write_file
  write_file-Either true i part d h = with_file-IsFilling before name temporary content i _ d h
  write_file-Either false i part d h = with_file-IsFull before name temporary content i _ d h refl

  pub sync_file-Either :
      (fails : Bool) (i : ℕ) (d : Disk)
      → IsFull before name temporary content i d
      → Either
          (λ (_ : Unit {0}). IsReady before name temporary content i)
          (Filling i)
          (sync_file fails i d).0
          (sync_file fails i d).1
  unfolding sync_file
  sync_file-Either true i d h = h.filling
  sync_file-Either false i d h =
      with_file-IsReady before name temporary content i _ d h.filling h.whole refl

  pub set_mode-IsFilling :
      (fails : Bool) (mode i : ℕ) (d : Disk) → Filling i d → Filling i (set_mode fails mode i d).1
  unfolding set_mode
  set_mode-IsFilling true mode i d h = h
  set_mode-IsFilling false mode i d h = with_file-IsFilling before name temporary content i _ d h

  pub replace-Either :
      (fails : Bool) (i : ℕ) (d : Disk)
      → IsReady before name temporary content i d
      → Either
          (λ (_ : Unit {0}). IsReplaced before name temporary content)
          (Filling i)
          (replace fails temporary name d).0
          (replace fails temporary name d).1
  unfolding replace
  replace-Either fails i d h =
      let named : lookup_entry name (put_entry name i (remove_entry temporary d.entries)) ≡ some i =
        rw list_eq_refl refl in
      let moved : lookup_entry temporary (put_entry name i (remove_entry temporary d.entries))
          ≡ none =
        rw
          (
            lookup-put temporary name i (remove_entry temporary d.entries),
            list_eq_sym temporary name apart_names,
            lookup-remove temporary temporary d.entries,
            list_eq_refl temporary,
          )
          refl in
      rw (h.full.filling.present, Either, replace)
        (failing-Either (IsReplaced before name temporary content) (Filling i) fails d
          (with_entries (put_entry name i (remove_entry temporary d.entries)) d) h.full.filling
          (with_entries-IsReplaced before name temporary content i d _ h named moved))

  pub unlink-IsAbandoned :
      (fails : Bool) (d : Disk)
      → IsAbandoned before name temporary content d
      → IsAbandoned before name temporary content (unlink fails temporary d).1
  unfolding unlink
  unlink-IsAbandoned true d h = h
  unlink-IsAbandoned false d h =
      with_entries-IsAbandoned before name temporary content (remove_entry temporary d.entries) d h
        (rw (lookup-remove name temporary d.entries, apart_names) refl)

  mode-IsReplaced :
      (i mode : ℕ) (d : Disk)
      → IsReplaced before name temporary content d
      → IsReplaced before name temporary content
          (with_file i (record (d.files i) { mode = mode }) d)
  mode-IsReplaced i mode d h = record {
    number = h.number;
    safe = λ found x. h.safe found (AfterCrash-mode i mode d name found x);
    named = h.named;
    moved = h.moved;
    whole = ground (arith, h.whole, ==_iff h.number i, λ (x : h.number ≡ i). ap d.files x);
    synced = ground (arith, h.synced, ==_iff h.number i, λ (x : h.number ≡ i). ap d.files x);
  }

  set_mode-IsReplaced :
      (fails : Bool) (mode i : ℕ) (d : Disk)
      → IsReplaced before name temporary content d
      → IsReplaced before name temporary content (set_mode fails mode i d).1
  unfolding set_mode
  set_mode-IsReplaced true mode i d h = h
  set_mode-IsReplaced false mode i d h = mode-IsReplaced i mode d h

  pub set_mode_at-IsReplaced :
      (fails : Bool) (mode : ℕ) (d : Disk)
      → IsReplaced before name temporary content d
      → IsReplaced before name temporary content (set_mode_at fails mode name d).1
  unfolding set_mode_at
  set_mode_at-IsReplaced fails mode d h =
      rw (h.named, set_mode_at) (set_mode-IsReplaced fails mode h.number d h)

  -- the new bytes are there whatever happens from now on
  pub record IsDurable (d : Disk) : Type 0 where
    pub replaced : IsReplaced before name temporary content d
    pub only : (found : Option Bytes) → AfterCrash d name found → found ≡ some content

  synced_new :
      (d : Disk) (h : IsReplaced before name temporary content d) (found : Option Bytes)
      → AfterCrash (record d { earlier = [] }) name found
      → found ≡ some content
  synced_new d h found (inl x) =
      found_new before name temporary content h.number d d.entries found h.named h.whole h.synced x
  synced_new d h found (inr x) = elim x [ ]

  pub sync_entries-Either :
      (fails : Bool) (d : Disk)
      → IsReplaced before name temporary content d
      → Either
          (λ (_ : Unit {0}). IsDurable)
          (IsReplaced before name temporary content)
          (sync_entries fails d).0
          (sync_entries fails d).1
  unfolding sync_entries
  sync_entries-Either true d h = h
  sync_entries-Either false d h =
      let new = λ (found : Option Bytes) (x : AfterCrash (record d { earlier = [] }) name found).
        synced_new d h found x in
      record {
        replaced = record {
          number = h.number;
          safe = λ found x. inr (new found x);
          named = h.named;
          moved = h.moved;
          whole = h.whole;
          synced = h.synced;
        };
        only = new;
      }
