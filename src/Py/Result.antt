-- ===== src/Py/Result.antt =====
-- src/cyphersyntax/errors.py and the built-in exceptions that the package raises. A call that may
-- raise returns a `Result`; of an exception its class is kept, and its message is not.
use cypher_syntax.Prelude.{◌≡◌, refl, ◌⊎◌, inl, inr, Bool, true, false}

pub data Error : Type 0 where
  type_error value_error overflow_error runtime_error recursion_error os_error invalid_tag : Error
  invalid_signature_error key_confirmation_error replay_detected_error : Error
  envelope_error handshake_error persistence_error store_error identity_error : Error

pub data Result {ℓ} (A : Type ℓ) : Type ℓ where
  err : Error → Result A
  ok : A → Result A

-- `if not test: raise error`
abbrev pub require : Bool → Error → Result (Unit {0})
require false error = err error
require true error = ok tt

infixl 5 ◌>>=◌ ◌>>◌
abbrev pub ◌>>=◌ {ℓ κ} : {A : Type ℓ} {B : Type κ} → Result A → (A → Result B) → Result B
err error >>= next = err error
ok value >>= next = next value

abbrev pub ◌>>◌ {ℓ κ} : {A : Type ℓ} {B : Type κ} → Result A → Result B → Result B
first >> second = first >>= λ _. second

pub require-eq-ok :
    (test : Bool) (error : Error) {u : Unit {0}} → require test error ≡ ok u → test ≡ true
require-eq-ok true error h = refl
require-eq-ok false error h = cc

pub Result-cases {ℓ} :
    {A : Type ℓ} (outcome : Result A)
    → ((value : A) × (outcome ≡ ok value)) ⊎ ((error : Error) × (outcome ≡ err error))
Result-cases (err error) = inr (error, refl)
Result-cases (ok value) = inl (value, refl)

-- the first step of a chain that returned, and the rest
pub bind-eq-ok {ℓ κ} :
    {A : Type ℓ} {B : Type κ} (first : Result A) (next : A → Result B) {result : B}
    → (first >>= next) ≡ ok result
    → (value : A) × (first ≡ ok value) × (next value ≡ ok result)
bind-eq-ok (err error) next h = absurd (cc)
bind-eq-ok (ok value) next h = (value, refl, h)

pub ok-injective {ℓ} : {A : Type ℓ} {a b : A} → ok a ≡ ok b → a ≡ b
ok-injective h = cc

-- the call did not raise
abbrev pub IsOk {ℓ} : {A : Type ℓ} → Result A → Type 0
IsOk (err error) = ⊥
IsOk (ok value) = Unit
