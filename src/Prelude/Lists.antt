-- ===== src/Prelude/Lists.antt =====
-- Lists measured by native numbers, and lists of numbers compared.
use Prim.Native.Nat.{ℕ, zero, suc, ◌+◌, ◌-◌, ◌≤◌, ◌<◌, min}
use mathlib.Core.Path.{◌≡◌, refl, ap}
use mathlib.Core.Logic.{◌↔◌, inl, inr}
use mathlib.Core.Bool.{Bool, true, false, not, ◌&&◌, ◌||◌}
use mathlib.Core.List.{List, [], ◌∷◌, ◌++◌}
use native.Mathlib.Omega.{arith}
use cypher_syntax.Prelude.Tests.{◌==◌, if◌then◌else◌, ==_iff, Bool-cases}

module _ {ℓ} {A : Type ℓ} where
  abbrev pub length : List A → ℕ
  length [] = 0
  length (x ∷ xs) = suc (length xs)

  abbrev pub take : ℕ → List A → List A
  take zero xs = []
  take (suc n) [] = []
  take (suc n) (x ∷ xs) = x ∷ take n xs

  abbrev pub drop : ℕ → List A → List A
  drop zero xs = xs
  drop (suc n) [] = []
  drop (suc n) (x ∷ xs) = drop n xs

  abbrev pub replicate : ℕ → A → List A
  replicate zero a = []
  replicate (suc n) a = a ∷ replicate n a

  -- the items that pass a test, in order
  abbrev pub keep : (A → Bool) → List A → List A
  keep p [] = []
  keep p (x ∷ xs) = if p x then x ∷ keep p xs else keep p xs

  pub length-append : (xs ys : List A) → length (xs ++ ys) ≡ length xs + length ys
  length-append [] ys = omega arith
  length-append (x ∷ xs) ys = omega (arith, length-append xs ys)

  pub length-take : (n : ℕ) (xs : List A) → length (take n xs) ≡ min n (length xs)
  length-take zero xs = omega arith
  length-take (suc n) [] = omega arith
  length-take (suc n) (x ∷ xs) = omega (arith, length-take n xs)

  pub length-drop : (n : ℕ) (xs : List A) → length (drop n xs) ≡ length xs - n
  length-drop zero xs = omega arith
  length-drop (suc n) [] = omega arith
  length-drop (suc n) (x ∷ xs) = omega (arith, length-drop n xs)

  -- the front of a list, and what stands behind it
  pub take-append : (xs ys : List A) (n : ℕ) → length xs ≡ n → take n (xs ++ ys) ≡ xs
  take-append [] ys zero h = refl
  take-append [] ys (suc n) h = absurd (omega (arith, h))
  take-append (x ∷ xs) ys zero h = absurd (omega (arith, h))
  take-append (x ∷ xs) ys (suc n) h = ap (λ zs. x ∷ zs) (take-append xs ys n (omega (arith, h)))

  pub drop-append : (xs ys : List A) (n : ℕ) → length xs ≡ n → drop n (xs ++ ys) ≡ ys
  drop-append [] ys zero h = refl
  drop-append [] ys (suc n) h = absurd (omega (arith, h))
  drop-append (x ∷ xs) ys zero h = absurd (omega (arith, h))
  drop-append (x ∷ xs) ys (suc n) h = drop-append xs ys n (omega (arith, h))

  pub length-replicate : (n : ℕ) (a : A) → length (replicate n a) ≡ n
  length-replicate zero a = refl
  length-replicate (suc n) a = ap suc (length-replicate n a)

module _ {ℓ κ} {A : Type ℓ} (P : A → Type κ) where
  -- every item has the property
  abbrev pub All : List A → Type κ
  All [] = Unit
  All (x ∷ xs) = P x × All xs

-- `n in numbers`
abbrev pub contains : List ℕ → ℕ → Bool
contains [] n = false
contains (x ∷ xs) n = x == n || contains xs n

pub contains-keep :
    (p : ℕ → Bool) (xs : List ℕ) (n : ℕ) → contains (keep p xs) n ≡ (contains xs n && p n)
contains-keep p [] n = refl
contains-keep p (x ∷ xs) n = ground (arith, contains-keep p xs n, λ (e : x ≡ n). ap p e)

-- no number twice
abbrev pub Distinct : List ℕ → Type 0
Distinct [] = Unit
Distinct (x ∷ xs) = (contains xs x ≡ false) × Distinct xs

pub Distinct-keep : (p : ℕ → Bool) (xs : List ℕ) → Distinct xs → Distinct (keep p xs)
Distinct-keep p [] h = tt
Distinct-keep p (x ∷ xs) (new, h) = elim (Bool-cases (p x)) [
  | inl e ↦ rw e (ground (arith, contains-keep p xs x), Distinct-keep p xs h)
  | inr e ↦ rw e (Distinct-keep p xs h)
]

length-keep_other :
    (v : ℕ) (xs : List ℕ) → contains xs v ≡ false → length (keep (λ n. not (n == v)) xs) ≡ length xs
length-keep_other v [] h = refl
length-keep_other v (x ∷ xs) h = ground (arith, length-keep_other v xs)

length-keep_ne :
    (v : ℕ) (xs : List ℕ) → Distinct xs → length xs ≤ suc (length (keep (λ n. not (n == v)) xs))
length-keep_ne v [] h = omega arith
length-keep_ne v (x ∷ xs) (new, h) =
    ground (arith, length-keep_ne v xs h, length-keep_other v xs, ==_iff x v)

abbrev InRange : ℕ → ℕ → List ℕ → Type 0
InRange a k xs = (n : ℕ) → contains xs n ≡ true → (a ≤ n) × (n < a + k)

-- distinct numbers of a range are at most as many as the range holds
pub length_le_range : (k a : ℕ) (xs : List ℕ) → Distinct xs → InRange a k xs → length xs ≤ k
length_le_range zero a [] d r = omega arith
length_le_range zero a (x ∷ xs) d r = absurd (ground (arith, r x))
length_le_range (suc k) a xs d r = omega (
  arith,
  length-keep_ne (a + k) xs d,
  length_le_range k a (keep (λ n. not (n == a + k)) xs) (Distinct-keep _ xs d)
      (λ n h. ground (arith, r n, contains-keep (λ m. not (m == a + k)) xs n)),
)

-- `==` on byte strings and on texts
abbrev pub list_eq : List ℕ → List ℕ → Bool
list_eq [] [] = true
list_eq (x ∷ xs) (y ∷ ys) = x == y && list_eq xs ys
list_eq _ _ = false

pub list_eq_refl : (xs : List ℕ) → list_eq xs xs ≡ true
list_eq_refl [] = refl
list_eq_refl (x ∷ xs) = ground (arith, list_eq_refl xs)

pub eq_of_list_eq : (xs ys : List ℕ) → list_eq xs ys ≡ true → xs ≡ ys
eq_of_list_eq [] [] h = refl
eq_of_list_eq [] (y ∷ ys) h = ground arith
eq_of_list_eq (x ∷ xs) [] h = ground arith
eq_of_list_eq (x ∷ xs) (y ∷ ys) h = ground (arith, eq_of_list_eq xs ys)

pub list_eq_iff : (xs ys : List ℕ) → (list_eq xs ys ≡ true) ↔ (xs ≡ ys)
list_eq_iff xs ys = (eq_of_list_eq xs ys, λ e. ground (arith, list_eq_refl xs))
