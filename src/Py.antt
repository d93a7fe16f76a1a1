-- ===== src/Py.antt =====
-- What the modules use of Python: values, exceptions, and methods that change an object.
pub mod Result
pub mod Value
pub mod Exec
pub mod Bytes
pub mod Hex
pub mod Utf8
pub mod Text
