-- ===== src/Files.antt =====
-- One directory of a disk, and the system calls that src/cyphersyntax/persistence.py makes on it. A
-- file's bytes are safe once they are synced, the directory's entries once the directory is synced:
-- until then a crash may bring back any earlier version of the directory, and a file that was not
-- synced may hold any bytes. Which calls fail is told by the environment.
pub mod Crash
use cypher_syntax.Py.Result.{Result, ok, err, os_error}
use cypher_syntax.Py.Value.{Text, Bytes}
use cypher_syntax.Prelude.{
  ℕ, zero, suc, ◌+◌, ◌-◌, ◌*◌, ◌/◌, ◌%◌, ◌^◌, ◌≤◌, ◌<◌, ◌≡◌, refl, sym, ap, ◌∙◌, ◌≢◌, ◌↔◌, ◌⊎◌, inl,
  inr, Bool, true, false, not, ◌&&◌, ◌||◌, Option, none, some, List, [], ◌∷◌, ◌++◌, map,
  append_assoc, append-nil, arith, ltb, leb, ◌==◌, if◌then◌else◌, ==_iff, ==_refl, Bool-cases, ℤ,
  pos, negsuc, pos_part, neg_part, ◌-ℤ◌, ◌≤ℤ◌, ◌<ℤ◌, leb_ℤ, ltb_ℤ, int-cases, length, take, drop,
  replicate, keep, length-append, length-take, length-drop, length-replicate, All, contains,
  contains-keep, Distinct, list_eq, list_eq_refl, eq_of_list_eq, list_eq_iff,
}

pub record File : Type 0 where
  pub content : Bytes
  pub synced : Bool
  pub mode : ℕ

-- names, each with the number of its file
abbrev pub Directory : Type 0
Directory = List (Text × ℕ)

abbrev pub lookup_entry : Text → Directory → Option ℕ
lookup_entry name [] = none
lookup_entry name ((n, i) ∷ entries) = if list_eq n name then some i else lookup_entry name entries

abbrev pub remove_entry : Text → Directory → Directory
remove_entry name [] = []
remove_entry name ((n, i) ∷ entries) =
    let rest = remove_entry name entries in if list_eq n name then rest else (n, i) ∷ rest

-- in place of an entry of that name, if there is one
abbrev pub put_entry : Text → ℕ → Directory → Directory
put_entry name i entries = (name, i) ∷ remove_entry name entries

pub record Disk : Type 0 where
  pub next : ℕ
  pub files : ℕ → File
  pub entries : Directory
  -- the versions of the directory since it was last synced, but the present one
  pub earlier : List Directory

abbrev pub with_entries : Directory → Disk → Disk
with_entries entries d = record d { entries = entries; earlier = d.entries ∷ d.earlier }

abbrev pub with_file : ℕ → File → Disk → Disk
with_file i file d = record d { files = λ j. if j == i then file else d.files j }

-- what a process reads at a name
abbrev pub content_at : Disk → Option ℕ → Option Bytes
content_at d none = none
content_at d (some i) = some (d.files i).content

abbrev pub read_bytes : Disk → Text → Option Bytes
read_bytes d name = content_at d (lookup_entry name d.entries)

-- a call that may fail, and changes nothing then
abbrev pub failing : Bool → Disk → Disk → Result (Unit {0}) × Disk
failing true before after = (err os_error, before)
failing false before after = (ok tt, after)

abbrev pub is_free : Option ℕ → Bool
is_free none = true
is_free (some i) = false

-- `mkstemp`, at the name that it settles on, which no file has
unfoldable pub make_file : Bool → Text → Disk → Result ℕ × Disk
make_file fails name d = elim (fails || not (is_free (lookup_entry name d.entries))) [
  | true ↦ (err os_error, d)
  | false ↦ (
    ok d.next,
    with_entries (put_entry name d.next d.entries)
        (record (with_file d.next (record { content = []; synced = false; mode = 0o600 }) d) {
          next = suc d.next;
        }),
  )
]

-- bytes that reach a file, or those of them that do before the call fails
unfoldable pub write_file : Bool → ℕ → Bytes → Bytes → Disk → Result (Unit {0}) × Disk
write_file fails i part whole d =
    failing fails (with_file i (record (d.files i) { content = part; synced = false }) d)
      (with_file i (record (d.files i) { content = whole; synced = false }) d)

-- `os.fsync` of a file
unfoldable pub sync_file : Bool → ℕ → Disk → Result (Unit {0}) × Disk
sync_file fails i d = failing fails d (with_file i (record (d.files i) { synced = true }) d)

-- `fchmod` and `chmod`
unfoldable pub set_mode : Bool → ℕ → ℕ → Disk → Result (Unit {0}) × Disk
set_mode fails mode i d = failing fails d (with_file i (record (d.files i) { mode = mode }) d)

-- the same, of the file at a name
unfoldable pub set_mode_at : Bool → ℕ → Text → Disk → Result (Unit {0}) × Disk
unfolding set_mode
set_mode_at fails mode name d = elim (lookup_entry name d.entries) [
  | some i ↦ set_mode fails mode i d
  | none ↦ (err os_error, d)
]

-- a call that changes nothing on the disk
abbrev pub no_change : Bool → Disk → Result (Unit {0}) × Disk
no_change fails d = failing fails d d

-- `os.replace` of a name by the file of another
unfoldable pub replace : Bool → Text → Text → Disk → Result (Unit {0}) × Disk
replace fails from to d = elim (lookup_entry from d.entries) [
  | some i ↦ failing fails d (with_entries (put_entry to i (remove_entry from d.entries)) d)
  | none ↦ (err os_error, d)
]

unfoldable pub unlink : Bool → Text → Disk → Result (Unit {0}) × Disk
unlink fails name d = failing fails d (with_entries (remove_entry name d.entries) d)

-- `os.fsync` of the directory
unfoldable pub sync_entries : Bool → Disk → Result (Unit {0}) × Disk
sync_entries fails d = failing fails d (record d { earlier = [] })
