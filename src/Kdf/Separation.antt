-- ===== src/Kdf/Separation.antt =====
-- Different uses of the key derivation never feed it the same input.
use cypher_syntax.Py.Result.{ok, bind-eq-ok, ok-injective}
use cypher_syntax.Py.Value.{Bytes, Text, int}
use cypher_syntax.Py.Text.{ascii, utf8, utf8-injective}
use cypher_syntax.Py.Bytes.{
  to_bytes, big_endian, prefixed_cancel, to_bytes-eq-ok, to_bytes_fits, append_cancel,
  big_endian-injective,
}
use cypher_syntax.Crypto.{Crypto, Lengths, AeadSuite, aes_gcm_siv, chacha20_poly1305, suite_name}
use cypher_syntax.Protocol.{max_message_sequence, validate_message_sequence_in_range}
use cypher_syntax.Kdf.{
  length_prefixed, directional_info, message_info, is_role, confirmation_payload,
  derive_message_key, derive_directional_secret,
}
use cypher_syntax.Prelude.{
  ℕ, ◌^◌, ◌≤◌, ◌<◌, ◌≡◌, refl, sym, ap, ◌∙◌, ◌⊎◌, inl, inr, true, none, [], ◌++◌, arith, Bool-cases,
  pos, length, take, drop, length-take, length-drop, list_eq, eq_of_list_eq,
}

length_prefixed-eq-ok :
    (x : Bytes) {bs : Bytes}
    → length_prefixed x ≡ ok bs
    → (length x < 256 ^ 4) × (bs ≡ big_endian 4 (length x) ++ x)
unfolding length_prefixed
length_prefixed-eq-ok x h =
    let (prefix, p, q) = bind-eq-ok (to_bytes (length x) 4) (λ b. ok (b ++ x)) h in
    let (fits, e) = to_bytes-eq-ok (length x) 4 p in (fits, cc)

length_prefixed_fits :
    (x : Bytes) → length x < 256 ^ 4 → length_prefixed x ≡ ok (big_endian 4 (length x) ++ x)
unfolding length_prefixed
length_prefixed_fits x h = rw (to_bytes_fits (length x) 4 h)

length_prefixed_cancel :
    (x y : Bytes) {p q u v : Bytes}
    → length_prefixed x ≡ ok p
    → length_prefixed y ≡ ok q
    → p ++ u ≡ q ++ v
    → (x ≡ y) × (u ≡ v)
length_prefixed_cancel x y {p} {q} {u} {v} hp hq e =
    let (fits_x, ex) = length_prefixed-eq-ok x hp in
    let (fits_y, ey) = length_prefixed-eq-ok y hq in
    prefixed_cancel x y fits_x fits_y (rw (ex, ey) at e)

record Parts (suite : Text) (sender recipient info : Bytes) : Type 0 where
  suite_bytes : Bytes
  suite_field : Bytes
  sender_field : Bytes
  recipient_field : Bytes
  encoded : utf8 suite ≡ ok suite_bytes
  first : length_prefixed suite_bytes ≡ ok suite_field
  second : length_prefixed sender ≡ ok sender_field
  third : length_prefixed recipient ≡ ok recipient_field
  whole :
      info
      ≡ ascii "CypherSyntax/traffic-secret/v1" ++ (suite_field ++ (sender_field ++ recipient_field))

parts :
    (suite : Text) (sender recipient : Bytes) {info : Bytes}
    → directional_info suite sender recipient ≡ ok info
    → Parts suite sender recipient info
unfolding directional_info
parts suite sender recipient h =
    let (a, ha, h1) = bind-eq-ok (utf8 suite) _ h in
    let (b, hb, h2) = bind-eq-ok (length_prefixed a) _ h1 in
    let (c, hc, h3) = bind-eq-ok (length_prefixed sender) _ h2 in
    let (d, hd, h4) = bind-eq-ok (length_prefixed recipient) _ h3 in
    record {
      suite_bytes = a;
      suite_field = b;
      sender_field = c;
      recipient_field = d;
      encoded = ha;
      first = hb;
      second = hc;
      third = hd;
      whole = sym (ok-injective h4);
    }

-- Two directions of traffic, of one session or of two, that derive their secrets with one `info`
-- have the same suite name, the same sender key and the same recipient key.
pub directional_info-injective :
    (s t : Text) (a b c d info : Bytes)
    → directional_info s a b ≡ ok info
    → directional_info t c d ≡ ok info
    → (s ≡ t) × (a ≡ c) × (b ≡ d)
directional_info-injective s t a b c d info h k =
    let p = parts s a b h in
    let q = parts t c d k in
    let (suites, rest) =
      length_prefixed_cancel p.suite_bytes q.suite_bytes {u = p.sender_field ++ p.recipient_field}
        {v = q.sender_field ++ q.recipient_field} p.first q.first
        (append_cancel (ascii "CypherSyntax/traffic-secret/v1")
          (ascii "CypherSyntax/traffic-secret/v1") refl (sym p.whole ∙ q.whole)).1 in
    let (senders, last) = length_prefixed_cancel a c p.second q.second rest in
    let (recipients, _) =
      length_prefixed_cancel b d {u = []} {v = []} p.third q.third
        (ap (λ (bs : Bytes). bs ++ []) last) in
    (utf8-injective s t p.encoded (rw (sym suites) at q.encoded), senders, recipients)

-- Message keys of one direction are derived with different `info` for different numbers.
pub message_info-injective :
    (n m : ℕ) (info : Bytes) → message_info n ≡ ok info → message_info m ≡ ok info → n ≡ m
unfolding message_info
message_info-injective n m info h k =
    let (a, p, h1) = bind-eq-ok (to_bytes n 8) _ h in
    let (b, q, k1) = bind-eq-ok (to_bytes m 8) _ k in
    let (fits_n, ea) = to_bytes-eq-ok n 8 p in
    let (fits_m, eb) = to_bytes-eq-ok m 8 q in
    big_endian-injective 8 n m fits_n fits_m (
      cc (
        ea,
        eb,
        (append_cancel (ascii "CypherSyntax/message-key/v1") (ascii "CypherSyntax/message-key/v1")
            {us = a} {vs = b} refl (ok-injective h1 ∙ sym (ok-injective k1))).1,
      ))

role-cases : (r : Text) → is_role r ≡ true → (r ≡ ascii "initiator") ⊎ (r ≡ ascii "responder")
role-cases r h = elim (Bool-cases (list_eq r (ascii "initiator"))) [
  | inl e ↦ inl (eq_of_list_eq r _ e)
  | inr e ↦ inr (eq_of_list_eq r _ (rw e at h))
]

roles_differ : (x y : Bytes) → ¬ (ascii "initiator" ++ x ≡ ascii "responder" ++ y)
roles_differ x y e = ground arith

same_role : (r s x y : Bytes) → r ≡ s → r ++ (ascii "|" ++ x) ≡ s ++ (ascii "|" ++ y) → x ≡ y
same_role r s x y p e =
    (append_cancel (ascii "|") (ascii "|") refl (append_cancel r s (ap length p) e).1).1

-- The payloads of two key confirmations are equal only for one role and one transcript hash.
pub confirmation_payload-injective :
    (r s : Text) (h k : Bytes)
    → is_role r ≡ true
    → is_role s ≡ true
    → confirmation_payload r h ≡ confirmation_payload s k
    → (r ≡ s) × (h ≡ k)
confirmation_payload-injective r s h k hr hs e =
    let prefix = ascii "CypherSyntax/key-confirmation/v1|" in
    let tails =
      (append_cancel prefix prefix {us = r ++ (ascii "|" ++ h)} {vs = s ++ (ascii "|" ++ k)} refl
        e).1 in
    elim (role-cases r hr) [
      | inl p ↦ elim (role-cases s hs) [
        | inl q ↦ (p ∙ sym q, same_role r s h k (p ∙ sym q) tails)
        | inr q ↦ absurd (roles_differ (ascii "|" ++ h) (ascii "|" ++ k) (rw (p, q) at tails))
      ]
      | inr p ↦ elim (role-cases s hs) [
        | inl q ↦ absurd (roles_differ (ascii "|" ++ k) (ascii "|" ++ h) (sym (rw (p, q) at tails)))
        | inr q ↦ (p ∙ sym q, same_role r s h k (p ∙ sym q) tails)
      ]
    ]

abbrev framed : Bytes → Bytes
framed x = big_endian 4 (length x) ++ x

abbrev directional_info_bytes : Bytes → Bytes → Bytes → Bytes
directional_info_bytes suite a b =
    ascii "CypherSyntax/traffic-secret/v1" ++ (framed suite ++ (framed a ++ framed b))

directional_info_fits :
    (suite : AeadSuite) (a b : Bytes)
    → length a < 256 ^ 4
    → length b < 256 ^ 4
    → (info : Bytes) × (directional_info (suite_name suite) a b ≡ ok info)
unfolding directional_info suite_name utf8
directional_info_fits aes_gcm_siv a b ha hb = (
  directional_info_bytes (ascii "AES_GCM_SIV") a b,
  rw (
    length_prefixed_fits (ascii "AES_GCM_SIV") (omega arith),
    length_prefixed_fits a ha,
    length_prefixed_fits b hb,
  ),
)
directional_info_fits chacha20_poly1305 a b ha hb = (
  directional_info_bytes (ascii "CHACHA20_POLY1305") a b,
  rw (
    length_prefixed_fits (ascii "CHACHA20_POLY1305") (omega arith),
    length_prefixed_fits a ha,
    length_prefixed_fits b hb,
  ),
)

-- For either suite, keys of less than 2^32 bytes and a number of at most 64 bits, a message key is
-- derived: 32 bytes of key and 12 bytes of nonce.
pub derive_message_key_total :
    (c : Crypto) (root : Bytes) (n : ℕ) (suite : AeadSuite) (sender recipient : Bytes)
    → Lengths c
    → n ≤ max_message_sequence
    → length sender < 256 ^ 4
    → length recipient < 256 ^ 4
    → (key : Bytes) × (nonce : Bytes) × (derive_message_key c root
          (int (pos n))
          (suite_name suite)
          sender
          recipient
        ≡ ok (key, nonce))
      × (length key ≡ 32)
      × (length nonce ≡ 12)
unfolding derive_message_key derive_directional_secret message_info
derive_message_key_total c root n suite sender recipient l hn hs hr =
    let (info, e) = directional_info_fits suite sender recipient hs hr in
    let secret = c.hkdf root 32 none info in
    let material = c.hkdf secret 44 none (ascii "CypherSyntax/message-key/v1" ++ big_endian 8 n) in
    let long =
      l.hkdf_length secret 44 none (ascii "CypherSyntax/message-key/v1" ++ big_endian 8 n) in
    (
      take 32 material,
      take 12 (drop 32 material),
      rw (validate_message_sequence_in_range n hn, e, to_bytes_fits n 8 (omega arith)),
      omega (arith, length-take 32 material, long),
      omega (arith, length-take 12 (drop 32 material), length-drop 32 material, long),
    )
