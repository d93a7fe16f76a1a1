-- ===== src/Json/Fuel.antt =====
-- The fuel of `loads` is enough: what any fuel reads, fuel beyond the text's length reads too.
use cypher_syntax.Py.Value.{Value, Items, Fields, Text}
use cypher_syntax.Json.Parse.{
  ◌>>=◌, skip_blanks, lead_of, read_key, After, broken, next_mark, read_value, read_members,
  read_items, at_end, loads,
}
use cypher_syntax.Json.Written.{bind-eq-some}
use cypher_syntax.Json.Shorter.{length-skip_blanks, read_key_shorter}
use cypher_syntax.Prelude.{
  ℕ, zero, suc, ◌<◌, ◌≡◌, refl, ap, ◌∙◌, inl, inr, Bool, Option, none, some, [], ◌∷◌, arith, length,
}
use cypher_syntax.Json.Stable.{
  Reads, IsStable, Reads-suc, members_by, items_by, next_mark_cases, lead_stable, members_by_stable,
  items_by_stable,
}

module _ (constants : Bool) (F : ℕ) (stable : IsStable constants F) where
  value_stable :
      (t rest : Text) (v : Value)
      → read_value constants (suc F) t ≡ some (v, rest)
      → Reads (λ fuel. read_value constants fuel t) t rest v
  unfolding read_value
  value_stable [] rest v h = absurd (cc)
  value_stable (c ∷ t) rest v h =
      let x = lead_stable constants F stable (lead_of c) c t rest v h in
      Reads-suc (λ fuel. read_value constants fuel (c ∷ t)) (c ∷ t) rest v x.0
        (λ fuel bound. x.1 fuel (omega (arith, bound)))

  abbrev marked : ℕ → Text → Text
  marked closing t = (next_mark closing (skip_blanks t)).1

  -- where a mark was found, the text behind it is shorter
  marked_shorter :
      {A : Type 0} (closing : ℕ) (t : Text) (b : After → Text → Option A) {result : A}
      → ((next : Text) → b broken next ≡ none)
      → b (next_mark closing (skip_blanks t)).0 (marked closing t) ≡ some result
      → length (marked closing t) < length t
  marked_shorter closing t b none_broken h = elim (next_mark_cases closing (skip_blanks t)) [
    | inl e ↦ absurd (cc (none_broken [], ap (λ p. b p.0 p.1) e, h))
    | inr e ↦ omega (arith, e, length-skip_blanks t)
  ]

  members_stable :
      (t rest : Text) (fields : Fields)
      → read_members constants (suc F) t ≡ some (fields, rest)
      → Reads (λ fuel. read_members constants fuel t) t rest fields
  unfolding read_value
  members_stable t rest fields h =
      let (k, e1, h1) = bind-eq-some (read_key t) _ h in
      let (v, e2, h2) = bind-eq-some (read_value constants F k.1) _ h1 in
      let a = (next_mark b'}' (skip_blanks v.1)).0 in
      let next = marked b'}' v.1 in
      let x = stable.of_value k.1 v.1 v.0 e2 in
      let y = members_by_stable constants F stable a k.0 v.0 next rest fields h2 in
      let k_shorter = read_key_shorter t k.0 k.1 e1 in
      let next_shorter =
        marked_shorter b'}' v.1 (λ a next. members_by constants a k.0 v.0 next F) (λ next. refl)
          h2 in
      Reads-suc (λ fuel. read_members constants fuel t) t rest fields
        (omega (arith, k_shorter, x.shorter, y.0, next_shorter))
        (λ fuel bound.
          ap
            (λ o. o >>= λ k. read_value constants fuel k.1 >>= λ v.
              members_by constants (next_mark b'}' (skip_blanks v.1)).0 k.0 v.0 (marked b'}' v.1)
                fuel)
            e1
          ∙ ap
              (λ o. o >>= λ v.
                members_by constants (next_mark b'}' (skip_blanks v.1)).0 k.0 v.0 (marked b'}' v.1)
                  fuel)
              (x.enough fuel (omega (arith, k_shorter, x.shorter, y.0, next_shorter, bound)))
          ∙ y.1 fuel (omega (arith, k_shorter, x.shorter, y.0, next_shorter, bound)))

  items_stable :
      (t rest : Text) (items : Items)
      → read_items constants (suc F) t ≡ some (items, rest)
      → Reads (λ fuel. read_items constants fuel t) t rest items
  unfolding read_value
  items_stable t rest items h =
      let (v, e, h1) = bind-eq-some (read_value constants F t) _ h in
      let a = (next_mark b']' (skip_blanks v.1)).0 in
      let next = marked b']' v.1 in
      let x = stable.of_value t v.1 v.0 e in
      let y = items_by_stable constants F stable a v.0 next rest items h1 in
      let next_shorter =
        marked_shorter b']' v.1 (λ a next. items_by constants a v.0 next F) (λ next. refl) h1 in
      Reads-suc (λ fuel. read_items constants fuel t) t rest items
        (omega (arith, x.shorter, y.0, next_shorter))
        (λ fuel bound.
          ap
            (λ o. o >>= λ v.
              items_by constants (next_mark b']' (skip_blanks v.1)).0 v.0 (marked b']' v.1) fuel)
            (x.enough fuel (omega (arith, x.shorter, y.0, next_shorter, bound)))
          ∙ y.1 fuel (omega (arith, x.shorter, y.0, next_shorter, bound)))

all-IsStable : (constants : Bool) (F : ℕ) → IsStable constants F
unfolding read_value
all-IsStable constants zero = record {
  of_value = λ t rest v h. absurd (cc);
  of_members = λ t rest fields h. absurd (cc);
  of_items = λ t rest items h. absurd (cc);
}
all-IsStable constants (suc F) =
    let stable = all-IsStable constants F in
    record {
      of_value = value_stable constants F stable;
      of_members = members_stable constants F stable;
      of_items = items_stable constants F stable;
    }

-- Reading on any amount of fuel gives a value only if `loads`, whose fuel is one more than the length of
-- the text, gives the same value: `loads` refuses no text for want of fuel.
pub loads_enough_fuel :
    (constants : Bool) (fuel : ℕ) (text : Text) (v : Value)
    → (read_value constants fuel (skip_blanks text) >>= λ p. at_end (p.0, skip_blanks p.1)) ≡ some v
    → loads constants text ≡ some v
unfolding loads
loads_enough_fuel constants fuel text v h =
    let (p, e, k) = bind-eq-some (read_value constants fuel (skip_blanks text)) _ h in
    let x = (all-IsStable constants fuel).of_value (skip_blanks text) p.1 p.0 e in
    ap (λ (o : Option (Value × Text)). o >>= λ p. at_end (p.0, skip_blanks p.1))
      (x.enough (suc (length text)) (omega (arith, length-skip_blanks text)))
    ∙ k
