-- ===== src/Persistence/Stages.antt =====
-- The stages of `atomic_write_bytes`: what is known of the disk between two of its calls.
use mathlib.Core.Path.{subst}
use cypher_syntax.Py.Value.{Text, Bytes}
use cypher_syntax.Py.Text.{ascii}
use cypher_syntax.Files.{
  File, Disk, Directory, lookup_entry, content_at, read_bytes, with_entries, with_file,
}
use cypher_syntax.Files.Crash.{
  FoundIn, AfterCrash, IsApart, AfterCrash-with_file, AfterCrash-with_entries, with_file-other,
}
use cypher_syntax.Persistence.{temporary_name}
use cypher_syntax.Prelude.{
  ℕ, ◌≡◌, refl, ap, ◌∙◌, ◌≢◌, ◌⊎◌, inl, inr, true, false, Option, none, some, ◌++◌, arith, ==_refl,
  Bool-cases, length, length-append, list_eq, eq_of_list_eq,
}

-- a name is shorter than the temporary name that is made of it
temporary-ne : (name drawn : Text) → temporary_name name drawn ≢ name
temporary-ne name drawn e =
    let longer = ap length e in
    absurd (omega (arith, longer, length-append name (ascii "." ++ (drawn ++ ascii ".tmp"))))

pub temporary-other : (name drawn : Text) → list_eq (temporary_name name drawn) name ≡ false
temporary-other name drawn = elim (Bool-cases (list_eq (temporary_name name drawn) name)) [
  | inl e ↦ absurd (temporary-ne name drawn (eq_of_list_eq (temporary_name name drawn) name e))
  | inr e ↦ e
]

pub content_at-other :
    (i : ℕ) (file : File) (d : Disk) (o : Option ℕ)
    → o ≢ some i
    → content_at (with_file i file d) o ≡ content_at d o
content_at-other i file d none other = refl
content_at-other i file d (some j) other =
    ap (λ (x : File). some x.content) (with_file-other i j file d other)

module _ (before : Disk) (name temporary : Text) (content : Bytes) where
  -- a crash shows at the name what it might have shown before the call, or the new bytes
  abbrev pub IsSafe : Disk → Type 0
  IsSafe d =
      (found : Option Bytes)
      → AfterCrash d name found
      → AfterCrash before name found ⊎ (found ≡ some content)

  abbrev pub IsUntouched : Disk → Type 0
  IsUntouched d = read_bytes d name ≡ read_bytes before name

  -- the temporary file is being written
  pub record IsFilling (i : ℕ) (d : Disk) : Type 0 where
    pub safe : IsSafe d
    pub untouched : IsUntouched d
    pub apart : IsApart i name d
    pub present : lookup_entry temporary d.entries ≡ some i

  -- it has the bytes
  pub record IsFull (i : ℕ) (d : Disk) : Type 0 where
    pub filling : IsFilling i d
    pub whole : (d.files i).content ≡ content

  -- it is synced
  pub record IsReady (i : ℕ) (d : Disk) : Type 0 where
    pub full : IsFull i d
    pub synced : (d.files i).synced ≡ true

  -- it has taken the name
  pub record IsReplaced (d : Disk) : Type 0 where
    pub number : ℕ
    pub safe : IsSafe d
    pub named : lookup_entry name d.entries ≡ some number
    pub moved : lookup_entry temporary d.entries ≡ none
    pub whole : (d.files number).content ≡ content
    pub synced : (d.files number).synced ≡ true

  -- the name is as it was
  pub record IsAbandoned (d : Disk) : Type 0 where
    pub safe : IsSafe d
    pub untouched : IsUntouched d

  pub IsFilling-IsAbandoned : {i : ℕ} {d : Disk} → IsFilling i d → IsAbandoned d
  IsFilling-IsAbandoned h = record { safe = h.safe; untouched = h.untouched }

  -- a change of the temporary file
  pub with_file-IsFilling :
      (i : ℕ) (file : File) (d : Disk) → IsFilling i d → IsFilling i (with_file i file d)
  with_file-IsFilling i file d h = record {
    safe = λ found x. h.safe found (AfterCrash-with_file i file d name found h.apart x);
    untouched = content_at-other i file d (lookup_entry name d.entries) h.apart.0 ∙ h.untouched;
    apart = h.apart;
    present = h.present;
  }

  own_file : (i : ℕ) (file : File) (d : Disk) → (with_file i file d).files i ≡ file
  own_file i file d = rw ==_refl refl

  pub with_file-IsFull :
      (i : ℕ) (file : File) (d : Disk)
      → IsFilling i d
      → file.content ≡ content
      → IsFull i (with_file i file d)
  with_file-IsFull i file d h e = record {
    filling = with_file-IsFilling i file d h;
    whole = ap (λ (x : File). x.content) (own_file i file d) ∙ e;
  }

  pub with_file-IsReady :
      (i : ℕ) (file : File) (d : Disk)
      → IsFilling i d
      → file.content ≡ content
      → file.synced ≡ true
      → IsReady i (with_file i file d)
  with_file-IsReady i file d h e s = record {
    full = with_file-IsFull i file d h e;
    synced = ap (λ (x : File). x.synced) (own_file i file d) ∙ s;
  }

  -- a change of the directory that leaves the name alone
  pub with_entries-IsAbandoned :
      (entries : Directory) (d : Disk)
      → IsAbandoned d
      → lookup_entry name entries ≡ lookup_entry name d.entries
      → IsAbandoned (with_entries entries d)
  with_entries-IsAbandoned entries d h e = record {
    safe = λ found x. h.safe found (AfterCrash-with_entries entries d name found e x);
    untouched = ap (content_at d) e ∙ h.untouched;
  }

  pub found_new :
      (i : ℕ) (d : Disk) (entries : Directory) (found : Option Bytes)
      → lookup_entry name entries ≡ some i
      → (d.files i).content ≡ content
      → (d.files i).synced ≡ true
      → FoundIn d.files (lookup_entry name entries) found
      → found ≡ some content
  found_new i d entries found named whole synced h =
      let (bytes, e, same) = subst (λ o. FoundIn d.files o found) named h in
      e ∙ ap some (same synced ∙ whole)

  -- the file takes the name
  pub with_entries-IsReplaced :
      (i : ℕ) (d : Disk) (entries : Directory)
      → IsReady i d
      → lookup_entry name entries ≡ some i
      → lookup_entry temporary entries ≡ none
      → IsReplaced (with_entries entries d)
  with_entries-IsReplaced i d entries h named moved = record {
    number = i;
    safe = λ found x. elim x [
      | inl p ↦ inr (found_new i d entries found named h.full.whole h.synced p)
      | inr p ↦ h.full.filling.safe found p
    ];
    named = named;
    moved = moved;
    whole = h.full.whole;
    synced = h.synced;
  }
