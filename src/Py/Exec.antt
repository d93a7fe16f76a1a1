-- ===== src/Py/Exec.antt =====
-- A method that changes an object of type `S` and may raise: what was assigned before the raise
-- stays assigned, so the object comes back beside the exception too.
use cypher_syntax.Py.Result.{Result, ok, err}

abbrev pub Exec {ℓ} : Type ℓ → Type ℓ → Type ℓ
Exec S A = S → Result A × S

module _ {ℓ} {S A B : Type ℓ} where
  abbrev pub then_run : Result A → (A → Exec S B) → Exec S B
  then_run (ok a) f s = f a s
  then_run (err e) f s = (err e, s)

  infixl 5 ◌>>=◌ ◌>>◌
  abbrev pub ◌>>=◌ : Exec S A → (A → Exec S B) → Exec S B
  ◌>>=◌ m f s = let (r, s') = m s in then_run r f s'

  abbrev pub ◌>>◌ : Exec S A → Exec S B → Exec S B
  m >> k = m >>= λ _. k

module _ {ℓ} {S A : Type ℓ} where
  abbrev pub pure : A → Exec S A
  pure a s = (ok a, s)

  -- a computation that reads the object and changes nothing
  abbrev pub reading : (S → Result A) → Exec S A
  reading f s = (f s, s)

-- an assignment to the object
abbrev pub modify : {S : Type 0} → (S → S) → Exec S (Unit {0})
modify f s = (ok tt, f s)
