-- ===== src/Json.antt =====
-- Python's `json`, as src/cyphersyntax uses it: `dumps` with sorted keys and no blanks, and `loads`.
pub mod Strings
pub mod Scan
pub mod Numbers
pub mod Parse
pub mod Object
pub mod Dump
pub mod Roundtrip
pub mod Write
pub mod Datum
pub mod Embedding
pub mod Levels
pub mod Sorted
pub mod Written
pub mod Readers
pub mod Reread
pub mod Shorter
pub mod Stable
pub mod Fuel
