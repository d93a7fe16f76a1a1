-- ===== src/Examples/Disks.antt =====
-- A file that is written in place of another, on disks that work and on one that fails.
use cypher_syntax.Py.Result.{err, type_error, os_error, persistence_error}
use cypher_syntax.Py.Value.{str, bytes, Bytes}
use cypher_syntax.Py.Text.{ascii}
use cypher_syntax.Files.{
  Disk, read_bytes, lookup_entry, make_file, write_file, sync_file, set_mode, unlink,
}
use cypher_syntax.Files.Crash.{AfterCrash, IsSound}
use cypher_syntax.Persistence.{Faults, temporary_name, atomic_write}
use cypher_syntax.Persistence.Atomic.{start, atomic_write-IsSafe, atomic_write-raises}
use cypher_syntax.Persistence.Success.{mode_faults}
use cypher_syntax.Prelude.{◌≡◌, ◌≢◌, refl, ◌⊎◌, true, false, Option, some, [], ◌∷◌, arith, All}

-- one file, synced
abbrev pub old_disk : Disk
old_disk = record {
  next = 1;
  files = λ i. record { content = ascii "old"; synced = true; mode = 0o644 };
  entries = (ascii "store.bin", 0) ∷ [];
  earlier = [];
}

pub old_disk-IsSound : IsSound old_disk
old_disk-IsSound = (λ n i h. ground (arith, h), tt)

-- every call works, but `fchmod`
abbrev pub no_faults : Faults
no_faults = mode_faults false true false false

-- the sync of the temporary file fails
abbrev sync_fault : Faults
sync_fault = record no_faults { fsync = true }

atomic_write-IsSafe_example :
    All
      (λ d.
        (found : Option Bytes)
        → AfterCrash d (ascii "store.bin") found
        → AfterCrash old_disk (ascii "store.bin") found ⊎ (found ≡ some (ascii "new")))
      (atomic_write sync_fault
        (ascii "store.bin")
        (ascii "x7")
        (bytes (ascii "new"))
        (start old_disk)).1.trace
atomic_write-IsSafe_example =
    atomic_write-IsSafe sync_fault old_disk old_disk-IsSound (ascii "store.bin") (ascii "x7")
      (ascii "new")

failed :
    (atomic_write sync_fault
      (ascii "store.bin")
      (ascii "x7")
      (bytes (ascii "new"))
      (start old_disk)).0
    ≡ err persistence_error
unfolding atomic_write make_file write_file sync_file set_mode unlink
failed = refl

atomic_write-raises_example :
    (((persistence_error ≡ type_error) × ((content : Bytes) → bytes (ascii "new") ≢ bytes content))
      ⊎ (persistence_error ≡ persistence_error)
      ⊎ ((persistence_error ≡ os_error) × ((false ≡ true) ⊎ ((false ≡ true) × (false ≡ true)))))
    × ((read_bytes
            (atomic_write sync_fault
              (ascii "store.bin")
              (ascii "x7")
              (bytes (ascii "new"))
              (start old_disk)).1.disk
            (ascii "store.bin")
          ≡ read_bytes old_disk (ascii "store.bin"))
        ⊎ ((content : Bytes) × (bytes (ascii "new") ≡ bytes content)
            × (read_bytes
                  (atomic_write sync_fault
                    (ascii "store.bin")
                    (ascii "x7")
                    (bytes (ascii "new"))
                    (start old_disk)).1.disk
                  (ascii "store.bin")
                ≡ some content)))
atomic_write-raises_example =
    atomic_write-raises sync_fault old_disk old_disk-IsSound (ascii "store.bin") (ascii "x7")
      (bytes (ascii "new")) persistence_error failed

-- the look for a symbolic link fails, and its OSError goes out
link_not_read :
    (atomic_write
      (record no_faults { lstat = true })
      (ascii "store.bin")
      (ascii "x7")
      (bytes (ascii "new"))
      (start old_disk)).0
    ≡ err os_error
unfolding atomic_write
link_not_read = refl

-- `os.fdopen` fails, then the close of the descriptor: an OSError, and the temporary file stays
descriptor_not_closed :
    (atomic_write
      (record no_faults { fdopen = true; close_descriptor = true })
      (ascii "store.bin")
      (ascii "x7")
      (bytes (ascii "new"))
      (start old_disk)).0
    ≡ err os_error
unfolding atomic_write make_file set_mode
descriptor_not_closed = refl

temporary_left :
    lookup_entry
      (temporary_name (ascii "store.bin") (ascii "x7"))
      (atomic_write
        (record no_faults { fdopen = true; close_descriptor = true })
        (ascii "store.bin")
        (ascii "x7")
        (bytes (ascii "new"))
        (start old_disk)).1.disk.entries
    ≡ some 1
unfolding atomic_write make_file set_mode
temporary_left = refl

-- a text is no byte string
text_refused :
    (atomic_write no_faults (ascii "store.bin") (ascii "x7") (str (ascii "new")) (start old_disk)).0
    ≡ err type_error
unfolding atomic_write
text_refused = refl

-- the temporary file is gone, and the old file as it was
cleaned_up :
    (atomic_write sync_fault
      (ascii "store.bin")
      (ascii "x7")
      (bytes (ascii "new"))
      (start old_disk)).1.disk.entries
    ≡ (ascii "store.bin", 0) ∷ []
unfolding atomic_write make_file write_file sync_file set_mode unlink
cleaned_up = refl
