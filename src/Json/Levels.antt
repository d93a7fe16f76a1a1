-- ===== src/Json/Levels.antt =====
-- `dumps` of a Python object that is a value of JSON: when it raises.
use cypher_syntax.Py.Result.{Result, ok, err, type_error, value_error, recursion_error, ◌>>=◌}
use mathlib.Core.Path.{subst}
use cypher_syntax.Py.Value.{
  Value, Items, Fields, str, bytes, int, bool, float, null, object, array, nil, cons, end, field,
  Text,
}
use cypher_syntax.Json.Embedding.{nesting-sort, dumps-of_value, write_datum-object}
use cypher_syntax.Json.Write.{sort_value}
use cypher_syntax.Json.Datum.{
  Interpreter, write_datum, write_elements, write_entries, dumps, printed, in_braces, in_brackets,
  of_value, of_items, of_fields, higher, nesting, items_nesting, fields_nesting,
}
use cypher_syntax.Prelude.{
  ℕ, zero, suc, ◌≤◌, ◌<◌, ◌≡◌, refl, sym, ◌⊎◌, inl, inr, Option, none, some, arith,
}

module _ (python : Interpreter) where
  -- what is raised within a number of levels of a value that has another number
  abbrev pub Refused : ℕ → ℕ → Result Text → Type 0
  Refused n levels (ok t) = Unit
  Refused n levels (err e) =
      (e ≡ type_error) ⊎ (e ≡ value_error) ⊎ ((e ≡ recursion_error) × (levels < n))

  Refused-bind :
      (n levels : ℕ) (r : Result Text) (next : Text → Result Text)
      → Refused n levels r
      → ((t : Text) → Refused n levels (next t))
      → Refused n levels (r >>= next)
  Refused-bind n levels (ok t) next h h' = h' t
  Refused-bind n levels (err e) next h h' = h

  Refused-widen :
      (n n' : ℕ) (levels : ℕ) (r : Result Text) → n ≤ n' → Refused n levels r → Refused n' levels r
  Refused-widen n n' levels (ok t) le h = tt
  Refused-widen n n' levels (err e) le (inl h) = inl h
  Refused-widen n n' levels (err e) le (inr (inl h)) = inr (inl h)
  Refused-widen n n' levels (err e) le (inr (inr (h, lt))) = inr (inr (h, omega (arith, le, lt)))

  Refused-suc :
      (n levels : ℕ) (r : Result Text) → Refused n levels r → Refused (suc n) (suc levels) r
  Refused-suc n levels (ok t) h = tt
  Refused-suc n levels (err e) (inl h) = inl h
  Refused-suc n levels (err e) (inr (inl h)) = inr (inl h)
  Refused-suc n levels (err e) (inr (inr (h, lt))) = inr (inr (h, omega (arith, lt)))

  printed-Refused : (n levels : ℕ) (o : Option Text) → Refused n levels (printed o)
  printed-Refused n levels none = inr (inl refl)
  printed-Refused n levels (some t) = tt

  higher_left : (m n : ℕ) → m ≤ higher m n
  higher_left m n = ground arith

  higher_right : (m n : ℕ) → n ≤ higher m n
  higher_right m n = ground arith

  -- Of a value of JSON, `dumps` raises RecursionError only where the levels are too few.
  mutual
    unfolding write_datum of_value nesting

    pub write_datum-Refused :
        (v : Value) (levels : ℕ)
        → Refused (nesting v) levels (write_datum python (of_value v) levels)
    write_datum-Refused (str s) levels = tt
    write_datum-Refused (bytes bs) levels = inl refl
    write_datum-Refused (int z) levels = printed-Refused 0 levels _
    write_datum-Refused (bool b) levels = tt
    write_datum-Refused (float s) levels = printed-Refused 0 levels _
    write_datum-Refused null levels = tt
    write_datum-Refused (object fields) zero = inr (inr (refl, omega arith))
    write_datum-Refused (object fields) (suc levels) =
        subst (Refused (suc (fields_nesting fields)) (suc levels))
          (sym (write_datum-object python fields levels))
          (Refused-bind (suc (fields_nesting fields)) (suc levels)
            (write_entries python (of_fields fields) levels) in_braces
            (Refused-suc (fields_nesting fields) levels _ (write_entries-Refused fields levels))
            (λ t. tt))
    write_datum-Refused (array items) zero = inr (inr (refl, omega arith))
    write_datum-Refused (array items) (suc levels) =
        Refused-bind (suc (items_nesting items)) (suc levels)
          (write_elements python (of_items items) levels) in_brackets
          (Refused-suc (items_nesting items) levels _ (write_elements-Refused items levels))
          (λ t. tt)

    write_elements-Refused :
        (items : Items) (levels : ℕ)
        → Refused (items_nesting items) levels (write_elements python (of_items items) levels)
    write_elements-Refused nil levels = tt
    write_elements-Refused (cons v items) levels =
        let n = higher (nesting v) (items_nesting items) in
        Refused-bind n levels (write_datum python (of_value v) levels) _
          (Refused-widen (nesting v) n levels _ (higher_left (nesting v) (items_nesting items))
            (write_datum-Refused v levels))
          (λ t.
            Refused-bind n levels (write_elements python (of_items items) levels) _
              (Refused-widen (items_nesting items) n levels _
                (higher_right (nesting v) (items_nesting items))
                (write_elements-Refused items levels))
              (λ rest. tt))

    write_entries-Refused :
        (fields : Fields) (levels : ℕ)
        → Refused (fields_nesting fields) levels (write_entries python (of_fields fields) levels)
    write_entries-Refused end levels = tt
    write_entries-Refused (field k v fields) levels =
        let n = higher (nesting v) (fields_nesting fields) in
        Refused-bind n levels (write_datum python (of_value v) levels) _
          (Refused-widen (nesting v) n levels _ (higher_left (nesting v) (fields_nesting fields))
            (write_datum-Refused v levels))
          (λ t.
            Refused-bind n levels (write_entries python (of_fields fields) levels) _
              (Refused-widen (fields_nesting fields) n levels _
                (higher_right (nesting v) (fields_nesting fields))
                (write_entries-Refused fields levels))
              (λ rest. tt))

  -- the same of `dumps`, which sorts the keys before
  pub dumps-Refused :
      (v : Value) → Refused (nesting v) (suc python.dump_levels) (dumps python (of_value v))
  dumps-Refused v =
      subst (λ n. Refused n (suc python.dump_levels) (dumps python (of_value v))) (nesting-sort v)
        (subst (Refused (nesting (sort_value v)) (suc python.dump_levels))
          (sym (dumps-of_value python v))
          (write_datum-Refused (sort_value v) (suc python.dump_levels)))
