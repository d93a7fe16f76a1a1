-- ===== src/Persistence.antt =====
-- src/cyphersyntax/persistence.py: the test of a passphrase, and `atomic_write_bytes` as the row of its
-- system calls. Every disk that a call leaves is kept, since a crash may come behind any call.
pub mod Logic
pub mod Stages
pub mod Calls
pub mod Writing
pub mod Atomic
pub mod Success
use cypher_syntax.Py.Exec.{◌>>=◌, ◌>>◌}
use cypher_syntax.Py.Result.{
  Result, ok, err, type_error, value_error, os_error, persistence_error, require,
}
use cypher_syntax.Py.Exec.{Exec, pure, reading}
use cypher_syntax.Py.Value.{Value, bytes, Text, Bytes}
use cypher_syntax.Py.Text.{ascii}
use cypher_syntax.Files.{
  Disk, make_file, write_file, sync_file, set_mode, set_mode_at, replace, unlink, sync_entries,
  no_change,
}
use cypher_syntax.Prelude.{
  ℕ, zero, suc, ◌+◌, ◌-◌, ◌*◌, ◌/◌, ◌%◌, ◌^◌, ◌≤◌, ◌<◌, ◌≡◌, refl, sym, ap, ◌∙◌, ◌≢◌, ◌↔◌, ◌⊎◌, inl,
  inr, Bool, true, false, not, ◌&&◌, ◌||◌, Option, none, some, List, [], ◌∷◌, ◌++◌, map,
  append_assoc, append-nil, arith, ltb, leb, ◌==◌, if◌then◌else◌, ==_iff, ==_refl, Bool-cases, ℤ,
  pos, negsuc, pos_part, neg_part, ◌-ℤ◌, ◌≤ℤ◌, ◌<ℤ◌, leb_ℤ, ltb_ℤ, int-cases, length, take, drop,
  replicate, keep, length-append, length-take, length-drop, length-replicate, All, contains,
  contains-keep, Distinct, list_eq, list_eq_refl, eq_of_list_eq, list_eq_iff,
}

abbrev pub min_passphrase_bytes : ℕ
min_passphrase_bytes = 16

abbrev pub max_passphrase_bytes : ℕ
max_passphrase_bytes = 1024

-- The source returns nothing; here the passphrase that passed comes back.
unfoldable pub validate_passphrase : Value → Result Bytes
validate_passphrase (bytes passphrase) =
    if not (leb min_passphrase_bytes (length passphrase))
    then err value_error
    else if not (leb (length passphrase) max_passphrase_bytes)
    then err value_error
    else ok passphrase
validate_passphrase _ = err type_error

-- which calls raise OSError, and how many bytes reach the file in a call that does; `lstat` is the call
-- of `is_symlink`, `symlink` its answer
pub record Faults : Type 0 where
  -- no directory can be synced on Windows, and none is
  pub windows : Bool
  pub mkdir : Bool
  pub lstat : Bool
  pub symlink : Bool
  pub mkstemp : Bool
  pub fchmod : Bool
  pub fdopen : Bool
  pub close_descriptor : Bool
  pub written : ℕ
  pub write : Bool
  pub flushed : ℕ
  pub flush : Bool
  pub fsync : Bool
  pub closed : ℕ
  pub close : Bool
  pub replace : Bool
  pub chmod : Bool
  pub open_directory : Bool
  pub sync_directory : Bool
  pub close_directory : Bool
  pub unlink : Bool

-- the disk, and the disks that it was, the last of them first
pub record Run : Type 0 where
  pub disk : Disk
  pub trace : List Disk

-- one system call
abbrev pub call : {A : Type 0} → (Disk → Result A × Disk) → Exec Run A
call f r = let (outcome, d) = f r.disk in (outcome, record { disk = d; trace = d ∷ r.trace })

-- `except OSError: pass`
abbrev pub ignoring : Exec Run (Unit {0}) → Exec Run (Unit {0})
ignoring m r = (ok tt, (m r).1)

-- `except OSError as exc: raise PersistenceError`; the calls raise nothing else
abbrev pub as_persistence_error {ℓ} : {A : Type ℓ} → Result A → Result A
as_persistence_error (ok a) = ok a
as_persistence_error (err e) = err persistence_error

abbrev pub raising : {A : Type 0} → Exec Run A → Exec Run A
raising m r = let (outcome, r') = m r in (as_persistence_error outcome, r')

-- the prefix and the suffix of `mkstemp` around the part that it draws
abbrev pub temporary_name : Text → Text → Text
temporary_name name drawn = ascii "." ++ (name ++ (ascii "." ++ (drawn ++ ascii ".tmp")))

module _ (f : Faults) (name drawn : Text) where
  -- `handle.write(data)`, `handle.flush()`, `os.fsync(handle.fileno())`
  abbrev pub write_handle : ℕ → Bytes → Exec Run (Unit {0})
  write_handle i content =
      call (write_file f.write i (take f.written content) (take f.written content))
      >> call (write_file f.flush i (take f.flushed content) content)
      >> call (sync_file f.fsync i)

  -- the end of the `with` block closes the handle; behind an exception what it still holds may reach
  -- the file
  abbrev pub close_handle : ℕ → Bytes → Result (Unit {0}) → Exec Run (Unit {0})
  close_handle i content (ok u) r = call (no_change f.close) r
  close_handle i content (err e) r =
      (err e, (call (write_file false i (take f.closed content) (take f.closed content)) r).1)

  abbrev pub with_handle : ℕ → Bytes → Exec Run (Unit {0})
  with_handle i content r =
      let (outcome, r') = write_handle i content r in close_handle i content outcome r'

  -- `os.fchmod` and `os.fdopen`: up to here the descriptor is the function's own
  abbrev pub prepare : ℕ → Exec Run (Unit {0})
  prepare i = ignoring (call (set_mode f.fchmod 0o600 i)) >> call (no_change f.fdopen)

  -- from the body of the `with` statement to `os.replace`
  abbrev pub fill : ℕ → Bytes → Exec Run (Unit {0})
  fill i content =
      with_handle i content >> call (replace f.replace (temporary_name name drawn) name)

  -- The `finally` clause, behind the exception that the `except` clause raised. A descriptor that no
  -- handle took over is closed, and where that fails its OSError takes the place of the exception and
  -- the temporary file stays; else the file is removed. Behind `os.replace` there is neither.
  abbrev pub clean_up : Bool → Result (Unit {0}) → Exec Run (Unit {0})
  clean_up descriptor (ok u) r = (ok u, r)
  clean_up true (err e) r =
      (call (no_change f.close_descriptor)
          >> ignoring (call (unlink f.unlink (temporary_name name drawn)))
          >> λ r. (err e, r))
        r
  clean_up false (err e) r =
      (ignoring (call (unlink f.unlink (temporary_name name drawn))) >> λ r. (err e, r)) r

  abbrev pub fill_opened : ℕ → Bytes → Result (Unit {0}) → Exec Run (Unit {0})
  fill_opened i content (ok u) r =
      let (outcome, r') = fill i content r in clean_up false (as_persistence_error outcome) r'
  fill_opened i content (err e) r = clean_up true (as_persistence_error (err e)) r

  abbrev pub fill_or_clean_up : ℕ → Bytes → Exec Run (Unit {0})
  fill_or_clean_up i content r = let (outcome, r') = prepare i r in fill_opened i content outcome r'

  -- `finally: os.close(descriptor)`
  abbrev pub close_directory : Result (Unit {0}) → Exec Run (Unit {0})
  close_directory outcome = call (no_change f.close_directory) >> λ r. (outcome, r)

  abbrev pub sync_and_close : Exec Run (Unit {0})
  sync_and_close r =
      let (outcome, r') = call (sync_entries f.sync_directory) r in close_directory outcome r'

  -- `_sync_directory`
  abbrev pub sync_directory : Exec Run (Unit {0})
  sync_directory =
      if f.windows then pure tt else (call (no_change f.open_directory) >> sync_and_close)

  abbrev pub replace_file : Bytes → Exec Run (Unit {0})
  replace_file content = raising (call (make_file f.mkstemp (temporary_name name drawn))) >>= λ i.
      fill_or_clean_up i content
      >> raising (ignoring (call (set_mode_at f.chmod 0o600 name)) >> sync_directory)

  -- `if destination.is_symlink(): raise PersistenceError`, outside the `try` statements
  abbrev pub refuse_symlink : Exec Run (Unit {0})
  refuse_symlink =
      call (no_change f.lstat) >> reading (λ r. require (not f.symlink) persistence_error)

  -- `atomic_write_bytes(path, data)`, of a path in an existing directory or of one that `mkdir` makes
  unfoldable pub atomic_write : Value → Exec Run (Unit {0})
  atomic_write (bytes content) r =
      (raising (call (no_change f.mkdir)) >> refuse_symlink >> replace_file content) r
  atomic_write _ r = (err type_error, r)
