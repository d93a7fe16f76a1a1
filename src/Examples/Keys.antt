-- ===== src/Examples/Keys.antt =====
-- Key derivation, and the bytes that signatures cover, at concrete inputs.
use cypher_syntax.Py.Result.{ok}
use cypher_syntax.Py.Value.{int, Bytes}
use cypher_syntax.Py.Text.{ascii, utf8}
use cypher_syntax.Py.Bytes.{to_bytes}
use cypher_syntax.Py.Utf8.{encode}
use cypher_syntax.Crypto.{aes_gcm_siv, suite_name}
use cypher_syntax.Kdf.{length_prefixed, directional_info, message_info, derive_message_key}
use cypher_syntax.Kdf.Separation.{
  directional_info-injective, message_info-injective, confirmation_payload-injective,
  derive_message_key_total,
}
use cypher_syntax.Examples.Toy.{toy, toy-Lengths}
use cypher_syntax.Prelude.{ℕ, ◌≡◌, refl, [], ◌∷◌, ◌++◌, arith, pos, length}

abbrev sender : Bytes
sender = 1 ∷ 2 ∷ []

abbrev recipient : Bytes
recipient = 3 ∷ []

abbrev some_info : Bytes
some_info =
    ascii "CypherSyntax/traffic-secret/v1"
    ++ (0 ∷ 0 ∷ 0 ∷ 11 ∷ ascii "AES_GCM_SIV")
    ++ (0 ∷ 0 ∷ 0 ∷ 2 ∷ sender)
    ++ (0 ∷ 0 ∷ 0 ∷ 1 ∷ recipient)

informed : directional_info (ascii "AES_GCM_SIV") sender recipient ≡ ok some_info
unfolding directional_info utf8 encode length_prefixed to_bytes
informed = refl

directional_info-injective_example :
    (ascii "AES_GCM_SIV" ≡ ascii "AES_GCM_SIV") × (sender ≡ sender) × (recipient ≡ recipient)
directional_info-injective_example =
    directional_info-injective (ascii "AES_GCM_SIV") (ascii "AES_GCM_SIV") sender recipient sender
      recipient some_info informed informed

abbrev number_info : Bytes
number_info = ascii "CypherSyntax/message-key/v1" ++ (0 ∷ 0 ∷ 0 ∷ 0 ∷ 0 ∷ 0 ∷ 1 ∷ 2 ∷ [])

numbered : message_info 258 ≡ ok number_info
unfolding message_info to_bytes
numbered = refl

message_info-injective_example : ◌≡◌ {A = ℕ} 258 258
message_info-injective_example = message_info-injective 258 258 number_info numbered numbered

confirmation_payload-injective_example : (ascii "initiator" ≡ ascii "initiator") × (sender ≡ sender)
confirmation_payload-injective_example =
    confirmation_payload-injective (ascii "initiator") (ascii "initiator") sender sender refl refl
      refl

derive_message_key_total_example :
    (key : Bytes) × (nonce : Bytes) × (derive_message_key toy
        (9 ∷ [])
        (int (pos 7))
        (suite_name aes_gcm_siv)
        sender
        recipient
      ≡ ok (key, nonce))
    × (length key ≡ 32)
    × (length nonce ≡ 12)
derive_message_key_total_example =
    derive_message_key_total toy (9 ∷ []) 7 aes_gcm_siv sender recipient toy-Lengths (omega arith)
      (omega arith) (omega arith)
