-- ===== src/Kdf.antt =====
-- src/cyphersyntax/kdf.py: every secret of a session, over the primitives `c`.
pub mod Separation
use cypher_syntax.Py.Result.{Result, ok, err, value_error, Error, ◌>>=◌}
use cypher_syntax.Py.Value.{Bytes, Text, Value}
use cypher_syntax.Py.Text.{ascii, utf8}
use cypher_syntax.Py.Bytes.{to_bytes}
use cypher_syntax.Crypto.{Crypto}
use cypher_syntax.Protocol.{validate_message_sequence}
use cypher_syntax.Prelude.{
  ℕ, zero, suc, ◌+◌, ◌-◌, ◌*◌, ◌/◌, ◌%◌, ◌^◌, ◌≤◌, ◌<◌, ◌≡◌, refl, sym, ap, ◌∙◌, ◌≢◌, ◌↔◌, ◌⊎◌, inl,
  inr, Bool, true, false, not, ◌&&◌, ◌||◌, Option, none, some, List, [], ◌∷◌, ◌++◌, map,
  append_assoc, append-nil, arith, ltb, leb, ◌==◌, if◌then◌else◌, ==_iff, ==_refl, Bool-cases, ℤ,
  pos, negsuc, pos_part, neg_part, ◌-ℤ◌, ◌≤ℤ◌, ◌<ℤ◌, leb_ℤ, ltb_ℤ, int-cases, length, take, drop,
  replicate, keep, length-append, length-take, length-drop, length-replicate, All, contains,
  contains-keep, Distinct, list_eq, list_eq_refl, eq_of_list_eq, list_eq_iff,
}

-- `len(value).to_bytes(4, "big") + value`
unfoldable pub length_prefixed : Bytes → Result Bytes
length_prefixed value = do prefix ← to_bytes (length value) 4; ok (prefix ++ value)

-- the `info` of a direction's secret
unfoldable pub directional_info : Text → Bytes → Bytes → Result Bytes
directional_info suite_name sender_public_key recipient_public_key = do
  suite_bytes ← utf8 suite_name
  suite ← length_prefixed suite_bytes
  sender ← length_prefixed sender_public_key
  recipient ← length_prefixed recipient_public_key
  ok (ascii "CypherSyntax/traffic-secret/v1" ++ (suite ++ (sender ++ recipient)))

-- the `info` of a message key
unfoldable pub message_info : ℕ → Result Bytes
message_info sequence = do
  number ← to_bytes sequence 8
  ok (ascii "CypherSyntax/message-key/v1" ++ number)

-- the two roles that a key confirmation may name
abbrev pub is_role : Text → Bool
is_role role = list_eq role (ascii "initiator") || list_eq role (ascii "responder")

-- a role that passed the test is ASCII, so its code points are its bytes
abbrev pub confirmation_payload : Text → Bytes → Bytes
confirmation_payload role transcript_hash =
    ascii "CypherSyntax/key-confirmation/v1|" ++ (role ++ (ascii "|" ++ transcript_hash))

module _ (c : Crypto) where
  abbrev pub hkdf_expand : Bytes → ℕ → Option Bytes → Bytes → Bytes
  hkdf_expand secret n salt info = c.hkdf secret n salt info

  -- shared secret, transcript hash, supplemental secret
  unfoldable pub derive_session_root : Bytes → Bytes → Bytes → Bytes
  derive_session_root shared_secret transcript_hash supplemental_secret =
      let material = shared_secret ++ supplemental_secret in
      hkdf_expand material 32 (some transcript_hash) (ascii "CypherSyntax/session-root/v1")

  unfoldable pub derive_key_confirmation : Bytes → Bytes → Text → Result Bytes
  derive_key_confirmation root_key transcript_hash role =
      if not (is_role role)
      then err value_error
      else ok (c.hmac_sha256 root_key (confirmation_payload role transcript_hash))

  unfoldable pub derive_directional_secret : Bytes → Text → Bytes → Bytes → Result Bytes
  derive_directional_secret root_key suite_name sender_public_key recipient_public_key = do
    info ← directional_info suite_name sender_public_key recipient_public_key
    ok (hkdf_expand root_key 32 none info)

  -- the key and the nonce of a message
  unfoldable pub derive_message_key : Bytes → Value → Text → Bytes → Bytes → Result (Bytes × Bytes)
  derive_message_key root_key sequence suite_name sender_public_key recipient_public_key = do
    n ← validate_message_sequence sequence
    directional_secret ←
        derive_directional_secret root_key suite_name sender_public_key recipient_public_key
    info ← message_info n
    let material = hkdf_expand directional_secret 44 none info
    ok (take 32 material, take 12 (drop 32 material))
