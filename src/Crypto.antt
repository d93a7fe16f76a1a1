-- ===== src/Crypto.antt =====
-- What the package calls and does not implement: the primitives of the package `cryptography` and
-- of `hashlib` and `hmac`. A private key stands as its 32 raw bytes, which is all that
-- `private_bytes` and `from_private_bytes` tell of it. A call that may raise
-- returns an `Option`, or a `Result` where the exception goes on to the caller.
use cypher_syntax.Py.Result.{Result, ok}
use cypher_syntax.Py.Hex.{AreBytes}
use cypher_syntax.Py.Value.{Bytes, Text}
use cypher_syntax.Py.Text.{ascii}
use cypher_syntax.Prelude.{ℕ, ◌+◌, ◌≡◌, Bool, true, Option, length}

-- `AeadSuite` of src/cyphersyntax/session.py
pub data AeadSuite : Type 0 where
  aes_gcm_siv chacha20_poly1305 : AeadSuite

-- `suite.value`
unfoldable pub suite_name : AeadSuite → Text
suite_name aes_gcm_siv = ascii "AES_GCM_SIV"
suite_name chacha20_poly1305 = ascii "CHACHA20_POLY1305"

pub record Crypto : Type 0 where
  -- hashlib.sha256(data).digest()
  pub sha256 : Bytes → Bytes
  -- hmac.new(key, data, sha256).digest()
  pub hmac_sha256 : Bytes → Bytes → Bytes
  -- HKDF(SHA256(), length, salt, info).derive(secret): secret, length, salt, info
  pub hkdf : Bytes → ℕ → Option Bytes → Bytes → Bytes
  -- Scrypt(salt, length=32, n=2**14, r=8, p=1).derive(passphrase): salt, passphrase
  pub scrypt : Bytes → Bytes → Bytes
  -- X25519: the public key of a private key, and `exchange` of a private and a public key, which
  -- raises ValueError at a point of low order
  pub x25519_public : Bytes → Bytes
  pub x25519_exchange : Bytes → Bytes → Option Bytes
  -- Ed25519: the public key of a private key; sign: private key, data; `from_public_bytes` and
  -- `verify` raise nothing: public key, signature, data
  pub ed25519_public : Bytes → Bytes
  pub ed25519_sign : Bytes → Bytes → Bytes
  pub ed25519_verify : Bytes → Bytes → Bytes → Bool
  -- `AESGCMSIV(key)` or `ChaCha20Poly1305(key)`, `encrypt` and `decrypt`: key, nonce, text,
  -- associated data
  pub aead_encrypt : AeadSuite → Bytes → Bytes → Bytes → Bytes → Result Bytes
  pub aead_decrypt : AeadSuite → Bytes → Bytes → Bytes → Bytes → Result Bytes

-- The documented lengths of what the primitives return.
pub record Lengths (c : Crypto) : Type 0 where
  pub sha256_length : (d : Bytes) → length (c.sha256 d) ≡ 32
  pub hmac_length : (key d : Bytes) → length (c.hmac_sha256 key d) ≡ 32
  pub hkdf_length :
      (secret : Bytes) (n : ℕ) (salt : Option Bytes) (info : Bytes)
      → length (c.hkdf secret n salt info) ≡ n
  pub x25519_public_length : (key : Bytes) → length (c.x25519_public key) ≡ 32
  pub ed25519_public_length : (key : Bytes) → length (c.ed25519_public key) ≡ 32
  pub ed25519_sign_length : (key d : Bytes) → length (c.ed25519_sign key d) ≡ 64
  -- a tag of 16 bytes is added
  pub encrypt_length :
      (suite : AeadSuite) (key nonce text associated box : Bytes)
      → c.aead_encrypt suite key nonce text associated ≡ ok box
      → length box ≡ length text + 16

-- What the primitives promise to honest users: both sides of an exchange compute one secret, a
-- signature verifies under the signer's public key, and what was encrypted is decrypted by the
-- same key, nonce and associated data; what encryption returns of bytes is bytes.
pub record Correct (c : Crypto) : Type 0 where
  pub exchange_comm :
      (a b : Bytes)
      → c.x25519_exchange a (c.x25519_public b) ≡ c.x25519_exchange b (c.x25519_public a)
  pub verify-sign :
      (key d : Bytes) → c.ed25519_verify (c.ed25519_public key) (c.ed25519_sign key d) d ≡ true
  pub decrypt-encrypt :
      (suite : AeadSuite) (key nonce text associated box : Bytes)
      → c.aead_encrypt suite key nonce text associated ≡ ok box
      → c.aead_decrypt suite key nonce box associated ≡ ok text
  pub encrypt_bytes :
      (suite : AeadSuite) (key nonce text associated box : Bytes)
      → AreBytes text
      → c.aead_encrypt suite key nonce text associated ≡ ok box
      → AreBytes box
