-- ===== src/Handshake.antt =====
-- src/cyphersyntax/handshake.py, in the modules below.
pub mod Fields
pub mod Messages
pub mod Codec
pub mod Validity
pub mod Framing
pub mod Transcript
pub mod Construct
