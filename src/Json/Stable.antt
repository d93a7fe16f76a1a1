-- ===== src/Json/Stable.antt =====
-- The readers of `json.loads` on the parts of a value: what was read with some fuel is read with any that is
-- enough.
use cypher_syntax.Py.Value.{Value, Items, Fields, str, object, array, nil, cons, end, field, Text}
use cypher_syntax.Json.Scan.{scan, among}
use cypher_syntax.Json.Numbers.{read_number}
use cypher_syntax.Json.Parse.{
  ◌>>=◌, skip_blanks, lead_of, Lead, quote, brace, bracket, digit, minus, other, names, first_name,
  negative_number, expect, unique, After, more, done, broken, next_mark, read_value, read_members,
  read_items,
}
use cypher_syntax.Json.Written.{bind-eq-some, some-injective}
use cypher_syntax.Json.Shorter.{
  length-skip_blanks, expect_shorter, scan_shorter, read_number_shorter, negative_number_shorter,
  name_shorter,
}
use cypher_syntax.Prelude.{
  ℕ, zero, suc, ◌+◌, ◌≤◌, ◌<◌, ◌≡◌, refl, ap, ◌∙◌, ◌⊎◌, inl, inr, Bool, false, Option, none, some,
  [], ◌∷◌, arith, length,
}

-- less text is left, and any fuel beyond what was read is enough
pub record Reads {A : Type 0} (read : ℕ → Option (A × Text)) (t rest : Text) (a : A) : Type 0 where
  pub shorter : length rest < length t
  pub enough : (fuel : ℕ) → length t < length rest + fuel → read fuel ≡ some (a, rest)

-- the readers on `F` units of fuel
pub record IsStable (constants : Bool) (F : ℕ) : Type 0 where
  pub of_value :
      (t rest : Text) (v : Value)
      → read_value constants F t ≡ some (v, rest)
      → Reads (λ fuel. read_value constants fuel t) t rest v
  pub of_members :
      (t rest : Text) (fields : Fields)
      → read_members constants F t ≡ some (fields, rest)
      → Reads (λ fuel. read_members constants fuel t) t rest fields
  pub of_items :
      (t rest : Text) (items : Items)
      → read_items constants F t ≡ some (items, rest)
      → Reads (λ fuel. read_items constants fuel t) t rest items

-- a value that begins with a character of one kind, in front of the rest of the text
abbrev after_brace : Option Text → Option (Fields × Text) → Option (Value × Text)
after_brace o m = elim o [ some rest ↦ some (object end, rest) | none ↦ m >>= unique ]

abbrev after_bracket : Option Text → Option (Items × Text) → Option (Value × Text)
after_bracket o m = elim o [
  | some rest ↦ some (array nil, rest)
  | none ↦ m >>= λ p. some (array p.0, p.1)
]

abbrev pub value_by : Bool → Lead → ℕ → ℕ → Text → Option (Value × Text)
value_by constants lead fuel c t = elim lead [
  | quote ↦ scan t (among none) >>= λ p. some (str p.0, p.1)
  | brace ↦ after_brace (expect b'}' t) (read_members constants fuel (skip_blanks t))
  | bracket ↦ after_bracket (expect b']' t) (read_items constants fuel (skip_blanks t))
  | digit ↦ read_number false (c ∷ t)
  | minus ↦ negative_number constants t
  | other ↦ first_name (names constants) (c ∷ t)
]

value_of_lead :
    (constants : Bool) (fuel c : ℕ) (t : Text)
    → read_value constants (suc fuel) (c ∷ t) ≡ value_by constants (lead_of c) fuel c t
unfolding read_value
value_of_lead constants fuel c t = refl

pub Reads-suc :
    {A : Type 0} (read : ℕ → Option (A × Text)) (t rest : Text) (a : A)
    → length rest < length t
    → ((fuel : ℕ) → length t < length rest + suc fuel → read (suc fuel) ≡ some (a, rest))
    → Reads read t rest a
Reads-suc read t rest a s h = record { shorter = s; enough = λ fuel bound. by fuel bound }
  where
    by : (fuel : ℕ) → length t < length rest + fuel → read fuel ≡ some (a, rest)
    by zero bound = absurd (omega (arith, s, bound))
    by (suc fuel) bound = h fuel bound

abbrev pub members_by : Bool → After → Text → Value → Text → ℕ → Option (Fields × Text)
members_by constants a k v next fuel = elim a [
  | more ↦ read_members constants fuel (skip_blanks next) >>= λ m. some (field k v m.0, m.1)
  | done ↦ some (field k v end, next)
  | broken ↦ none
]

abbrev pub items_by : Bool → After → Value → Text → ℕ → Option (Items × Text)
items_by constants a v next fuel = elim a [
  | more ↦ read_items constants fuel (skip_blanks next) >>= λ m. some (cons v m.0, m.1)
  | done ↦ some (cons v nil, next)
  | broken ↦ none
]

pub next_mark_cases :
    (closing : ℕ) (t : Text)
    → (next_mark closing t ≡ (broken, [])) ⊎ (length (next_mark closing t).1 < length t)
next_mark_cases closing [] = inl refl
next_mark_cases closing (c ∷ t) = inr (omega arith)

unique_rest : (p : Fields × Text) (v : Value) (rest : Text) → unique p ≡ some (v, rest) → p.1 ≡ rest
unique_rest (fields, r) v rest h = ground (arith, h)

pair_rest : {A : Type 0} {p : A × Text} {b : A} {t : Text} → some p ≡ some (b, t) → p.1 ≡ t
pair_rest h = ap (λ p. p.1) (some-injective h)

-- what was read with F units of fuel is read with any that are enough
abbrev pub Enough : {A : Type 0} → (ℕ → Option (A × Text)) → Text → Text → A → Type 0
Enough read t rest a = (fuel : ℕ) → length t < length rest + fuel → read fuel ≡ some (a, rest)

module _ (constants : Bool) (F : ℕ) (stable : IsStable constants F) where
  brace_stable :
      (o : Option Text) (t rest : Text) (v : Value)
      → ((r : Text) → o ≡ some r → length r < length t)
      → after_brace o (read_members constants F (skip_blanks t)) ≡ some (v, rest)
      → (length rest < length t)
        × Enough (λ fuel. after_brace o (read_members constants fuel (skip_blanks t))) t rest v
  brace_stable (some r) t rest v h e =
      (omega (arith, h r refl, ap (λ (u : Text). length u) (pair_rest e)), λ fuel bound. e)
  brace_stable none t rest v h e =
      let (p, e1, e2) = bind-eq-some (read_members constants F (skip_blanks t)) unique e in
      let same = ap (λ (u : Text). length u) (unique_rest p v rest e2) in
      let x = stable.of_members (skip_blanks t) p.1 p.0 e1 in
      (
        omega (arith, x.shorter, length-skip_blanks t, same),
        λ fuel bound.
            ap (λ o. o >>= unique)
              (x.enough fuel (omega (arith, length-skip_blanks t, bound, same)))
            ∙ e2,
      )

  bracket_stable :
      (o : Option Text) (t rest : Text) (v : Value)
      → ((r : Text) → o ≡ some r → length r < length t)
      → after_bracket o (read_items constants F (skip_blanks t)) ≡ some (v, rest)
      → (length rest < length t)
        × Enough (λ fuel. after_bracket o (read_items constants fuel (skip_blanks t))) t rest v
  bracket_stable (some r) t rest v h e =
      (omega (arith, h r refl, ap (λ (u : Text). length u) (pair_rest e)), λ fuel bound. e)
  bracket_stable none t rest v h e =
      let (p, e1, e2) = bind-eq-some (read_items constants F (skip_blanks t)) _ e in
      let same = ap (λ (u : Text). length u) (pair_rest e2) in
      let x = stable.of_items (skip_blanks t) p.1 p.0 e1 in
      (
        omega (arith, x.shorter, length-skip_blanks t, same),
        λ fuel bound.
            ap (λ (o : Option (Items × Text)). o >>= λ p. some (array p.0, p.1))
              (x.enough fuel (omega (arith, length-skip_blanks t, bound, same)))
            ∙ e2,
      )

  pub lead_stable :
      (lead : Lead) (c : ℕ) (t rest : Text) (v : Value)
      → value_by constants lead F c t ≡ some (v, rest)
      → (length rest < suc (length t)) × Enough (λ fuel. value_by constants lead fuel c t) t rest v
  lead_stable quote c t rest v h =
      let (p, e, k) = bind-eq-some (scan t (among none)) _ h in
      (
        omega (
          arith,
          scan_shorter t (among none) p.0 p.1 e,
          ap (λ (u : Text). length u) (pair_rest k),
        ),
        λ fuel bound. h,
      )
  lead_stable brace c t rest v h =
      let x = brace_stable (expect b'}' t) t rest v (expect_shorter b'}' t) h in
      (omega (arith, x.0), x.1)
  lead_stable bracket c t rest v h =
      let x = bracket_stable (expect b']' t) t rest v (expect_shorter b']' t) h in
      (omega (arith, x.0), x.1)
  lead_stable digit c t rest v h = (read_number_shorter false (c ∷ t) rest v h, λ fuel bound. h)
  lead_stable minus c t rest v h =
      (omega (arith, negative_number_shorter constants t rest v h), λ fuel bound. h)
  lead_stable other c t rest v h = (name_shorter constants (c ∷ t) rest v h, λ fuel bound. h)

  pub members_by_stable :
      (a : After) (k : Text) (v : Value) (next rest : Text) (fields : Fields)
      → members_by constants a k v next F ≡ some (fields, rest)
      → (length rest ≤ length next)
        × Enough (λ fuel. members_by constants a k v next fuel) next rest fields
  members_by_stable more k v next rest fields h =
      let (p, e1, e2) = bind-eq-some (read_members constants F (skip_blanks next)) _ h in
      let same = ap (λ (u : Text). length u) (pair_rest e2) in
      let x = stable.of_members (skip_blanks next) p.1 p.0 e1 in
      (
        omega (arith, x.shorter, length-skip_blanks next, same),
        λ fuel bound.
            ap (λ (o : Option (Fields × Text)). o >>= λ m. some (field k v m.0, m.1))
              (x.enough fuel (omega (arith, length-skip_blanks next, bound, same)))
            ∙ e2,
      )
  members_by_stable done k v next rest fields h =
      (omega (arith, ap (λ (u : Text). length u) (pair_rest h)), λ fuel bound. h)
  members_by_stable broken k v next rest fields h = absurd (cc)

  pub items_by_stable :
      (a : After) (v : Value) (next rest : Text) (items : Items)
      → items_by constants a v next F ≡ some (items, rest)
      → (length rest ≤ length next)
        × Enough (λ fuel. items_by constants a v next fuel) next rest items
  items_by_stable more v next rest items h =
      let (p, e1, e2) = bind-eq-some (read_items constants F (skip_blanks next)) _ h in
      let same = ap (λ (u : Text). length u) (pair_rest e2) in
      let x = stable.of_items (skip_blanks next) p.1 p.0 e1 in
      (
        omega (arith, x.shorter, length-skip_blanks next, same),
        λ fuel bound.
            ap (λ (o : Option (Items × Text)). o >>= λ m. some (cons v m.0, m.1))
              (x.enough fuel (omega (arith, length-skip_blanks next, bound, same)))
            ∙ e2,
      )
  items_by_stable done v next rest items h =
      (omega (arith, ap (λ (u : Text). length u) (pair_rest h)), λ fuel bound. h)
  items_by_stable broken v next rest items h = absurd (cc)
