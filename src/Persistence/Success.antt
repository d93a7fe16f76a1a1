-- ===== src/Persistence/Success.antt =====
-- When `atomic_write_bytes` returns.
use cypher_syntax.Files.{replace}
use cypher_syntax.Persistence.{Faults}
use cypher_syntax.Prelude.{Bool, false}

-- Calls fail whose failure the code ignores: `fchmod` and `chmod`.
abbrev pub mode_faults : Bool → Bool → Bool → Bool → Faults
mode_faults windows fchmod chmod unlink = record {
  windows = windows;
  mkdir = false;
  lstat = false;
  symlink = false;
  mkstemp = false;
  fchmod = fchmod;
  fdopen = false;
  close_descriptor = false;
  written = 0;
  write = false;
  flushed = 0;
  flush = false;
  fsync = false;
  closed = 0;
  close = false;
  replace = false;
  chmod = chmod;
  open_directory = false;
  sync_directory = false;
  close_directory = false;
  unlink = unlink;
}
