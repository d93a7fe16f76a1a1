-- ===== src/Session/State.antt =====
-- The objects of src/cyphersyntax/session.py.
use cypher_syntax.Py.Result.{Result, ok, err, value_error}
use cypher_syntax.Py.Value.{Text, Bytes}
use cypher_syntax.Py.Text.{ascii}
use cypher_syntax.Crypto.{AeadSuite, aes_gcm_siv, chacha20_poly1305}
use cypher_syntax.Handshake.Messages.{HandshakeOffer, HandshakeResponse}
use cypher_syntax.Identity.{Identity}
use cypher_syntax.Replay.{ReplayWindow}
use cypher_syntax.Prelude.{Option, [], if◌then◌else◌, ℤ, pos, negsuc, list_eq}

-- `AeadSuite(value)`
unfoldable pub parse_suite : Text → Result AeadSuite
parse_suite name =
    if list_eq name (ascii "AES_GCM_SIV")
    then ok aes_gcm_siv
    else if list_eq name (ascii "CHACHA20_POLY1305")
    then ok chacha20_poly1305
    else err value_error

pub record SessionState : Type 0 where
  pub local_name : Text
  pub remote_name : Text
  pub suite : AeadSuite
  pub root_key : Bytes
  pub local_ephemeral_public_bytes : Bytes
  pub remote_ephemeral_public_bytes : Bytes
  pub send_sequence : ℤ
  pub replay_window : ReplayWindow

-- `ReplayWindow()`
abbrev pub default_window : ReplayWindow
default_window = record { window_size = 1024; highest_seen = negsuc 0; seen = [] }

-- `SessionState(…)` with its defaults: local name, remote name, suite, root key, local key, remote key
unfoldable pub open_session : Text → Text → AeadSuite → Bytes → Bytes → Bytes → SessionState
open_session local_name remote_name suite root_key local_key remote_key = record {
  local_name = local_name;
  remote_name = remote_name;
  suite = suite;
  root_key = root_key;
  local_ephemeral_public_bytes = local_key;
  remote_ephemeral_public_bytes = remote_key;
  send_sequence = pos 0;
  replay_window = default_window;
}

pub record InitiatorHandshake : Type 0 where
  pub local_identity : Identity
  pub remote_signing_public_key : Bytes
  pub offer : HandshakeOffer
  pub supplemental_secret : Bytes
  pub ephemeral_private_key : Option Bytes

pub record ResponderHandshake : Type 0 where
  pub remote_signing_public_key : Bytes
  pub offer : HandshakeOffer
  pub response : HandshakeResponse
  pub suite : AeadSuite
  pub root_key : Option Bytes
