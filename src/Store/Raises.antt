-- ===== src/Store/Raises.antt =====
-- Which exceptions a chain of steps may raise, from those of its steps.
use cypher_syntax.Py.Result.{Error, Result, ok, err, require, ◌>>=◌, ◌>>◌, ok-injective}
use cypher_syntax.Py.Value.{Value}
use cypher_syntax.Json.Object.{parsed}
use cypher_syntax.Prelude.{◌≡◌, refl, ap, Bool, true, false, Option, none, some}

-- whatever is raised is of a class
abbrev pub Raises {ℓ} : {A : Type ℓ} → (Error → Type 0) → Result A → Type 0
Raises P (ok a) = Unit
Raises P (err e) = P e

pub Raises-bind :
    {A B : Type 0} (P : Error → Type 0) (r : Result A) (next : A → Result B)
    → Raises P r
    → ((a : A) → r ≡ ok a → Raises P (next a))
    → Raises P (r >>= next)
Raises-bind P (ok a) next h h' = h' a refl
Raises-bind P (err e) next h h' = h

pub Raises-require :
    {A : Type 0} (P : Error → Type 0) (test : Bool) (e : Error) (next : Result A)
    → P e
    → (test ≡ true → Raises P next)
    → Raises P (require test e >> next)
Raises-require P true e next p h = h refl
Raises-require P false e next p h = p

pub Raises-weaken :
    {A : Type 0} (P Q : Error → Type 0)
    → ((e : Error) → P e → Q e)
    → (r : Result A) → Raises P r
    → Raises Q r
Raises-weaken P Q w (ok a) h = tt
Raises-weaken P Q w (err e) h = w e h

pub Raises-parsed :
    (P : Error → Type 0) (e : Error) (o : Option Value) → P e → Raises P (parsed e o)
Raises-parsed P e none p = p
Raises-parsed P e (some v) p = tt

pub parsed-eq-ok : (e : Error) (o : Option Value) (v : Value) → parsed e o ≡ ok v → o ≡ some v
parsed-eq-ok e none v h = absurd (cc)
parsed-eq-ok e (some w) v h = ap some (ok-injective h)
