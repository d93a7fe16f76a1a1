-- ===== src/Examples/Toy.antt =====
-- Primitives that have the lengths and the laws asked of the real ones, and no strength.
use mathlib.Core.List.{foldl}
use mathlib.Core.Path.{ap₂, subst}
use cypher_syntax.Py.Result.{ok-injective, invalid_tag, Result, ok, err, IsOk}
use cypher_syntax.Py.Hex.{AreBytes}
use cypher_syntax.Py.Value.{Bytes}
use cypher_syntax.Crypto.{Crypto, Lengths, Correct, AeadSuite}
use cypher_syntax.Prelude.{
  ℕ, zero, suc, ◌+◌, ◌*◌, ◌/◌, ◌%◌, ◌≡◌, refl, ap, ◌∙◌, Bool, ◌&&◌, some, [], ◌∷◌, ◌++◌, arith, leb,
  if◌then◌else◌, length, length-append, take-append, drop-append, take, drop, list_eq, list_eq_refl,
}

-- cut or filled up with zeros to a length
unfoldable pub fill : ℕ → Bytes → Bytes
fill zero bs = []
fill (suc n) [] = 0 ∷ fill n []
fill (suc n) (b ∷ bs) = b ∷ fill n bs

length-fill : (n : ℕ) (bs : Bytes) → length (fill n bs) ≡ n
unfolding fill
length-fill zero bs = refl
length-fill (suc n) [] = ap suc (length-fill n [])
length-fill (suc n) (b ∷ bs) = ap suc (length-fill n bs)

unfoldable pub add_bytes : Bytes → Bytes → Bytes
add_bytes (a ∷ xs) (b ∷ ys) = ((a + b) % 256) ∷ add_bytes xs ys
add_bytes _ _ = []

add_bytes_comm : (xs ys : Bytes) → add_bytes xs ys ≡ add_bytes ys xs
unfolding add_bytes
add_bytes_comm [] [] = refl
add_bytes_comm [] (y ∷ ys) = refl
add_bytes_comm (x ∷ xs) [] = refl
add_bytes_comm (x ∷ xs) (y ∷ ys) = ap₂ ◌∷◌ (omega arith) (add_bytes_comm xs ys)

-- a number that depends on every byte
unfoldable pub checksum : Bytes → ℕ
checksum = foldl (λ n b. (n * 31 + b) % 65521) 7

unfoldable pub seal : Bytes → Bytes → Bytes → Bytes → Bytes
unfolding checksum fill
seal key nonce text associated =
    fill 16 ((checksum (key ++ nonce ++ text ++ associated) % 256) ∷ [])

abbrev toy_decrypt : AeadSuite → Bytes → Bytes → Bytes → Bytes → Result Bytes
toy_decrypt suite key nonce box associated =
    let text = drop 16 box in
    if list_eq (take 16 box) (seal key nonce text associated) then ok text else err invalid_tag

abbrev pub toy : Crypto
toy = record {
  sha256 = λ bs. fill 32 ((checksum bs / 256 % 256) ∷ (checksum bs % 256) ∷ []);
  hmac_sha256 = λ key bs. fill 32 (checksum (key ++ bs) ∷ bs);
  hkdf = λ secret n salt info. fill n (checksum (secret ++ info) ∷ secret);
  scrypt = λ salt passphrase. fill 32 (checksum (salt ++ passphrase) ∷ passphrase);
  x25519_public = λ key. fill 32 key;
  x25519_exchange = λ key other. some (add_bytes (fill 32 key) other);
  ed25519_public = λ key. fill 32 key;
  ed25519_sign = λ key bs. fill 64 (checksum (fill 32 key ++ bs) ∷ []);
  ed25519_verify = λ key signature bs. list_eq signature (fill 64 (checksum (key ++ bs) ∷ []));
  aead_encrypt = λ suite key nonce text associated. ok (seal key nonce text associated ++ text);
  aead_decrypt = toy_decrypt;
}

length-seal : (key nonce text associated : Bytes) → length (seal key nonce text associated) ≡ 16
unfolding seal
length-seal key nonce text associated =
    length-fill 16 ((checksum (key ++ nonce ++ text ++ associated) % 256) ∷ [])

pub toy-Lengths : Lengths toy
toy-Lengths = record {
  sha256_length = λ bs. length-fill 32 _;
  hmac_length = λ key bs. length-fill 32 _;
  hkdf_length = λ secret n salt info. length-fill n _;
  x25519_public_length = λ key. length-fill 32 _;
  ed25519_public_length = λ key. length-fill 32 _;
  ed25519_sign_length = λ key bs. length-fill 64 _;
  encrypt_length = λ suite key nonce text associated box e.
      subst (λ (b : Bytes). length b ≡ length text + 16) (ok-injective e)
        (length-append (seal key nonce text associated) text
          ∙ (omega (arith, length-seal key nonce text associated)));
}

opens :
    (tag text key nonce associated : Bytes) (suite : AeadSuite)
    → tag ≡ seal key nonce text associated
    → toy_decrypt suite key nonce (tag ++ text) associated ≡ ok text
opens tag text key nonce associated suite e =
    let sized : length tag ≡ 16 = ap length e ∙ length-seal key nonce text associated in
    let front : take 16 (tag ++ text) ≡ tag = take-append tag text 16 sized in
    let back : drop 16 (tag ++ text) ≡ text = drop-append tag text 16 sized in
    rw (front, back, e, list_eq_refl (seal key nonce text associated))

AreBytes-append : (xs ys : Bytes) → AreBytes xs → AreBytes ys → AreBytes (xs ++ ys)
AreBytes-append [] ys hx hy = hy
AreBytes-append (x ∷ xs) ys (h, hx) hy = (h, AreBytes-append xs ys hx hy)

fill-AreBytes : (n : ℕ) (bs : Bytes) → AreBytes bs → AreBytes (fill n bs)
unfolding fill
fill-AreBytes zero bs h = tt
fill-AreBytes (suc n) [] h = (omega arith, fill-AreBytes n [] tt)
fill-AreBytes (suc n) (b ∷ bs) (h, hs) = (h, fill-AreBytes n bs hs)

pub toy-digest_bytes : (bs : Bytes) → AreBytes (toy.sha256 bs)
toy-digest_bytes bs = fill-AreBytes 32 _ (omega arith, (omega arith, tt))

sealed_bytes :
    (key nonce text associated : Bytes)
    → AreBytes text
    → AreBytes (seal key nonce text associated ++ text)
unfolding seal
sealed_bytes key nonce text associated h =
    AreBytes-append (fill 16 ((checksum (key ++ nonce ++ text ++ associated) % 256) ∷ [])) text
      (fill-AreBytes 16 ((checksum (key ++ nonce ++ text ++ associated) % 256) ∷ [])
        (omega arith, tt))
      h

pub toy-Correct : Correct toy
toy-Correct = record {
  exchange_comm = λ a b. ap some (add_bytes_comm (fill 32 a) (fill 32 b));
  verify-sign = λ key bs. list_eq_refl (fill 64 (checksum (fill 32 key ++ bs) ∷ []));
  decrypt-encrypt = λ suite key nonce text associated box e.
      subst (λ (b : Bytes). toy_decrypt suite key nonce b associated ≡ ok text) (ok-injective e)
        (opens (seal key nonce text associated) text key nonce associated suite refl);
  encrypt_bytes = λ suite key nonce text associated box h e.
      subst AreBytes (ok-injective e) (sealed_bytes key nonce text associated h);
}

-- the printable characters of ASCII
abbrev pub is_visible : ℕ → Bool
is_visible c = leb 32 c && leb c 126

-- the result of a call that succeeds
abbrev pub the_ok : {A : Type 0} (r : Result A) → IsOk r → A
the_ok (ok a) h = a
the_ok (err e) h = absurd h

pub the_ok_eq : {A : Type 0} (r : Result A) (h : IsOk r) → r ≡ ok (the_ok r h)
the_ok_eq (ok a) h = refl
the_ok_eq (err e) h = absurd h

pub toy-scrypt_length : (salt passphrase : Bytes) → length (toy.scrypt salt passphrase) ≡ 32
toy-scrypt_length salt passphrase = length-fill 32 (checksum (salt ++ passphrase) ∷ passphrase)
