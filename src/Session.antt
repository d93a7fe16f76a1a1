-- ===== src/Session.antt =====
-- src/cyphersyntax/session.py, in the modules below.
pub mod State
pub mod Messages
pub mod Authenticity
pub mod Numbers
pub mod Failures
pub mod Once
pub mod Delivery
pub mod Start
pub mod Complete
pub mod Inversion
pub mod Agreement
pub mod Pair
pub mod Closing
