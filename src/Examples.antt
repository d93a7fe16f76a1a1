-- ===== src/Examples.antt =====
-- The theorems at concrete inputs, over primitives that compute.
mod Toy
mod Replays
mod Keys
mod Handshakes
mod Envelopes
mod Sessions
mod Codecs
mod Disks
mod Stores
mod Objects
mod Identities
