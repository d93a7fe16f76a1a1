-- ===== src/Files/Crash.antt =====
-- What a crash may leave at a name.
use mathlib.Core.Path.{subst}
use cypher_syntax.Py.Value.{Text, Bytes}
use cypher_syntax.Files.{
  File, Directory, lookup_entry, remove_entry, put_entry, Disk, with_entries, with_file,
}
use cypher_syntax.Prelude.{
  ℕ, ◌<◌, ◌≡◌, refl, ap, ◌≢◌, ◌⊎◌, inl, inr, true, Option, none, some, List, [], ◌∷◌, arith, ◌==◌,
  if◌then◌else◌, ==_iff, Bool-cases, All, list_eq, list_eq_iff,
}

-- some item has the property
abbrev pub AnyOf {ℓ} : {A : Type ℓ} → (A → Type 0) → List A → Type 0
AnyOf P [] = ⊥
AnyOf P (x ∷ xs) = P x ⊎ AnyOf P xs

-- the bytes that a file may hold: those written, where they were synced
abbrev pub FoundIn : (ℕ → File) → Option ℕ → Option Bytes → Type 0
FoundIn files none found = found ≡ none
FoundIn files (some i) found =
    (bytes : Bytes) × (found ≡ some bytes) × ((files i).synced ≡ true → bytes ≡ (files i).content)

-- what may be found at a name after a crash, under any of the versions of the directory
abbrev pub AfterCrash : Disk → Text → Option Bytes → Type 0
AfterCrash d name found =
    AnyOf (λ entries. FoundIn d.files (lookup_entry name entries) found) (d.entries ∷ d.earlier)

pub lookup-remove :
    (n m : Text) (entries : Directory)
    → lookup_entry n (remove_entry m entries)
      ≡ (if list_eq m n then none else lookup_entry n entries)
lookup-remove n m [] = ground arith
lookup-remove n m ((k, i) ∷ entries) =
    ground (arith, lookup-remove n m entries, list_eq_iff k m, list_eq_iff m n, list_eq_iff k n)

pub AnyOf-map {ℓ} :
    {A : Type ℓ} (P Q : A → Type 0) (xs : List A)
    → All (λ x. P x → Q x) xs
    → AnyOf P xs
    → AnyOf Q xs
AnyOf-map P Q [] h p = elim p [ ]
AnyOf-map P Q (x ∷ xs) (f, fs) (inl p) = inl (f p)
AnyOf-map P Q (x ∷ xs) (f, fs) (inr p) = inr (AnyOf-map P Q xs fs p)

pub lookup-put :
    (n m : Text) (i : ℕ) (entries : Directory)
    → lookup_entry n (put_entry m i entries)
      ≡ (if list_eq m n then some i else lookup_entry n entries)
lookup-put n m i entries = ground (arith, lookup-remove n m entries)

pub All-each {ℓ} : {A : Type ℓ} (P : A → Type 0) (xs : List A) → ((x : A) → P x) → All P xs
All-each P [] f = tt
All-each P (x ∷ xs) f = (f x, All-each P xs f)

pub All-map {ℓ} :
    {A : Type ℓ} (P Q : A → Type 0) (xs : List A) → ((x : A) → P x → Q x) → All P xs → All Q xs
All-map P Q [] f h = tt
All-map P Q (x ∷ xs) f (h, hs) = (f x h, All-map P Q xs f hs)

-- no version of the directory has the file at the name
abbrev pub IsApart : ℕ → Text → Disk → Type 0
IsApart i name d = All (λ entries. lookup_entry name entries ≢ some i) (d.entries ∷ d.earlier)

-- every file that a version of the directory has is one of the first `d.next`
abbrev pub IsBelow : ℕ → Directory → Type 0
IsBelow k entries = (n : Text) (i : ℕ) → lookup_entry n entries ≡ some i → i < k

abbrev pub IsSound : Disk → Type 0
IsSound d = All (IsBelow d.next) (d.entries ∷ d.earlier)

pub with_file-other :
    (i j : ℕ) (file : File) (d : Disk) → some j ≢ some i → (with_file i file d).files j ≡ d.files j
with_file-other i j file d other = elim (Bool-cases (j == i)) [
  | inl e ↦ absurd (other (ap some ((==_iff j i).0 e)))
  | inr e ↦ rw e refl
]

FoundIn-other :
    (i : ℕ) (file : File) (d : Disk) (o : Option ℕ) (found : Option Bytes)
    → o ≢ some i
    → FoundIn (with_file i file d).files o found
    → FoundIn d.files o found
FoundIn-other i file d none found other h = h
FoundIn-other i file d (some j) found other (bytes, e, same) = (
  bytes,
  e,
  subst (λ (f : File). f.synced ≡ true → bytes ≡ f.content) (with_file-other i j file d other) same,
)

-- a change of a file that is not at the name shows nothing there
pub AfterCrash-with_file :
    (i : ℕ) (file : File) (d : Disk) (name : Text) (found : Option Bytes)
    → IsApart i name d
    → AfterCrash (with_file i file d) name found
    → AfterCrash d name found
AfterCrash-with_file i file d name found apart h =
    AnyOf-map _ _ (d.entries ∷ d.earlier)
      (All-map _ _ (d.entries ∷ d.earlier)
        (λ entries a. FoundIn-other i file d (lookup_entry name entries) found a) apart)
      h

-- a change of the directory that keeps the name as it is shows nothing there
pub AfterCrash-with_entries :
    (entries : Directory) (d : Disk) (name : Text) (found : Option Bytes)
    → lookup_entry name entries ≡ lookup_entry name d.entries
    → AfterCrash (with_entries entries d) name found
    → AfterCrash d name found
AfterCrash-with_entries entries d name found same (inl h) =
    inl (subst (λ o. FoundIn d.files o found) same h)
AfterCrash-with_entries entries d name found same (inr h) = h

FoundIn-mode :
    (i mode : ℕ) (d : Disk) (o : Option ℕ) (found : Option Bytes)
    → FoundIn (with_file i (record (d.files i) { mode = mode }) d).files o found
    → FoundIn d.files o found
FoundIn-mode i mode d none found h = h
FoundIn-mode i mode d (some j) found (bytes, e, same) =
    (bytes, e, ground (arith, ==_iff j i, λ (x : j ≡ i). ap d.files x))

-- nor does a change of a file's mode
pub AfterCrash-mode :
    (i mode : ℕ) (d : Disk) (name : Text) (found : Option Bytes)
    → AfterCrash (with_file i (record (d.files i) { mode = mode }) d) name found
    → AfterCrash d name found
AfterCrash-mode i mode d name found h =
    AnyOf-map _ _ (d.entries ∷ d.earlier)
      (All-each _ (d.entries ∷ d.earlier)
        (λ entries. FoundIn-mode i mode d (lookup_entry name entries) found))
      h
