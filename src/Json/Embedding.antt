-- ===== src/Json/Embedding.antt =====
-- `dumps` of a Python object that is a value of JSON: what it writes.
use cypher_syntax.Py.Result.{ok, bind-eq-ok, ok-injective, ◌>>=◌}
use cypher_syntax.Py.Value.{
  Value, Items, Fields, str, bytes, int, bool, float, null, object, array, nil, cons, end, field,
  Text,
}
use cypher_syntax.Json.Dump.{text_le}
use cypher_syntax.Json.Sorted.{sort_value_idempotent}
use cypher_syntax.Json.Strings.{quoted}
use cypher_syntax.Json.Write.{
  insert_field, sort_value, sort_items, sort_fields, write, write_items, write_fields, more_fields,
  more_items, dump_value,
}
use cypher_syntax.Json.Datum.{
  key_str, py_dict, py_list, Interpreter, all_of_class, are_ordered, insert_entry, sort_datum,
  sort_elements, sort_entries, write_datum, write_elements, write_entries, dumps, printed,
  in_braces, in_brackets, of_value, of_items, of_fields, more_entries, more_elements, higher,
  nesting, items_nesting, fields_nesting,
}
use cypher_syntax.Prelude.{
  ℕ, zero, suc, ◌≡◌, refl, sym, ap, ◌∙◌, inl, inr, Bool-cases, true, false, Option, none, some, ◌∷◌,
  ◌++◌, arith,
}

higher_swap : (a b c : ℕ) → higher b (higher a c) ≡ higher a (higher b c)
higher_swap a b c = ground arith

nesting-insert :
    (k : Text) (v : Value) (fields : Fields)
    → fields_nesting (insert_field k v fields) ≡ higher (nesting v) (fields_nesting fields)
unfolding fields_nesting
nesting-insert k v end = refl
nesting-insert k v (field j w fields) = elim (Bool-cases (text_le k j)) [
  | inl e ↦ rw (e, insert_field) refl
  | inr e ↦
      rw (e, insert_field, nesting-insert k v fields)
        (higher_swap (nesting v) (nesting w) (fields_nesting fields))
]

mutual
  unfolding sort_value nesting

  pub nesting-sort : (v : Value) → nesting (sort_value v) ≡ nesting v
  nesting-sort (str t) = refl
  nesting-sort (bytes bs) = refl
  nesting-sort (int z) = refl
  nesting-sort (bool b) = refl
  nesting-sort (float t) = refl
  nesting-sort null = refl
  nesting-sort (object fields) = ap suc (nesting-sort_fields fields)
  nesting-sort (array items) = ap suc (nesting-sort_items items)

  nesting-sort_items : (items : Items) → items_nesting (sort_items items) ≡ items_nesting items
  nesting-sort_items nil = refl
  nesting-sort_items (cons v items) = rw (nesting-sort v, nesting-sort_items items) refl

  nesting-sort_fields :
      (fields : Fields) → fields_nesting (sort_fields fields) ≡ fields_nesting fields
  nesting-sort_fields end = refl
  nesting-sort_fields (field k v fields) =
      nesting-insert k (sort_value v) (sort_fields fields)
      ∙ rw (nesting-sort v, nesting-sort_fields fields) refl

texts_of_class : (fields : Fields) → all_of_class 0 (of_fields fields) ≡ true
unfolding of_fields
texts_of_class end = refl
texts_of_class (field k v fields) = ground (arith, texts_of_class fields)

texts_are_ordered : (fields : Fields) → are_ordered (of_fields fields) ≡ true
unfolding of_fields
texts_are_ordered end = refl
texts_are_ordered (field k v fields) = texts_of_class fields

module _ (python : Interpreter) where
  insert_entry-of_fields :
      (k : Text) (v : Value) (fields : Fields)
      → insert_entry python (key_str k) (of_value v) (of_fields fields)
        ≡ of_fields (insert_field k v fields)
  unfolding of_fields
  insert_entry-of_fields k v end = refl
  insert_entry-of_fields k v (field j w fields) = ground (arith, insert_entry-of_fields k v fields)

  mutual
    unfolding sort_value of_value sort_datum

    pub sort_datum-of_value : (v : Value) → sort_datum python (of_value v) ≡ of_value (sort_value v)
    sort_datum-of_value (str t) = refl
    sort_datum-of_value (bytes bs) = refl
    sort_datum-of_value (int z) = refl
    sort_datum-of_value (bool b) = refl
    sort_datum-of_value (float t) = refl
    sort_datum-of_value null = refl
    sort_datum-of_value (object fields) = ap py_dict (sort_entries-of_fields fields)
    sort_datum-of_value (array items) = ap py_list (sort_elements-of_items items)

    sort_elements-of_items :
        (items : Items) → sort_elements python (of_items items) ≡ of_items (sort_items items)
    sort_elements-of_items nil = refl
    sort_elements-of_items (cons v items) =
        rw (sort_datum-of_value v, sort_elements-of_items items) refl

    sort_entries-of_fields :
        (fields : Fields) → sort_entries python (of_fields fields) ≡ of_fields (sort_fields fields)
    sort_entries-of_fields end = refl
    sort_entries-of_fields (field k v fields) =
        rw (sort_datum-of_value v, sort_entries-of_fields fields)
          (insert_entry-of_fields k (sort_value v) (sort_fields fields))

  pub dumps-of_value :
      (v : Value)
      → dumps python (of_value v)
        ≡ write_datum python (of_value (sort_value v)) (suc python.dump_levels)
  unfolding dumps
  dumps-of_value v = rw (sort_datum-of_value v) refl

  pub write_datum-object :
      (fields : Fields) (levels : ℕ)
      → write_datum python (of_value (object fields)) (suc levels)
        ≡ (write_entries python (of_fields fields) levels >>= in_braces)
  unfolding write_datum of_value
  write_datum-object fields levels = rw (texts_are_ordered fields) refl

  more_entries-of_fields :
      (fields : Fields) (rest : Text)
      → more_entries (of_fields fields) rest ≡ more_fields fields rest
  unfolding of_fields
  more_entries-of_fields end rest = refl
  more_entries-of_fields (field k v fields) rest = refl

  more_elements-of_items :
      (items : Items) (rest : Text) → more_elements (of_items items) rest ≡ more_items items rest
  unfolding of_items
  more_elements-of_items nil rest = refl
  more_elements-of_items (cons v items) rest = refl

  printed-eq-ok : (o : Option Text) (t : Text) → printed o ≡ ok t → o ≡ some t
  printed-eq-ok none t h = absurd (cc)
  printed-eq-ok (some s) t h = ap some (ok-injective h)

  -- What is written of a value of JSON is its text.
  mutual
    unfolding write write_datum of_value

    pub write_datum-eq-ok :
        (v : Value) (levels : ℕ) (t : Text)
        → write_datum python (of_value v) levels ≡ ok t
        → write python.float_repr v ≡ some t
    write_datum-eq-ok (str s) levels t h = ap some (ok-injective h)
    write_datum-eq-ok (bytes bs) levels t h = absurd (cc)
    write_datum-eq-ok (int z) levels t h = printed-eq-ok _ t h
    write_datum-eq-ok (bool b) levels t h = ap some (ok-injective h)
    write_datum-eq-ok (float s) levels t h = printed-eq-ok _ t h
    write_datum-eq-ok null levels t h = ap some (ok-injective h)
    write_datum-eq-ok (object fields) zero t h = absurd (cc)
    write_datum-eq-ok (object fields) (suc levels) t h =
        let (x, e, h') =
          bind-eq-ok (write_entries python (of_fields fields) levels) in_braces
            (sym (write_datum-object fields levels) ∙ h) in
        rw (write_entries-eq-ok fields levels x e) (ap some (ok-injective h'))
    write_datum-eq-ok (array items) zero t h = absurd (cc)
    write_datum-eq-ok (array items) (suc levels) t h =
        let (x, e, h') = bind-eq-ok (write_elements python (of_items items) levels) in_brackets h in
        rw (write_elements-eq-ok items levels x e) (ap some (ok-injective h'))

    write_elements-eq-ok :
        (items : Items) (levels : ℕ) (t : Text)
        → write_elements python (of_items items) levels ≡ ok t
        → write_items python.float_repr items ≡ some t
    write_elements-eq-ok nil levels t h = ap some (ok-injective h)
    write_elements-eq-ok (cons v items) levels t h =
        let (x, e, h1) = bind-eq-ok (write_datum python (of_value v) levels) _ h in
        let (y, e', h2) = bind-eq-ok (write_elements python (of_items items) levels) _ h1 in
        rw (write_datum-eq-ok v levels x e, write_elements-eq-ok items levels y e')
          (ap (λ r. some (x ++ r)) (sym (more_elements-of_items items y))
            ∙ ap some (ok-injective h2))

    write_entries-eq-ok :
        (fields : Fields) (levels : ℕ) (t : Text)
        → write_entries python (of_fields fields) levels ≡ ok t
        → write_fields python.float_repr fields ≡ some t
    write_entries-eq-ok end levels t h = ap some (ok-injective h)
    write_entries-eq-ok (field k v fields) levels t h =
        let (x, e, h1) = bind-eq-ok (write_datum python (of_value v) levels) _ h in
        let (y, e', h2) = bind-eq-ok (write_entries python (of_fields fields) levels) _ h1 in
        rw (write_datum-eq-ok v levels x e, write_entries-eq-ok fields levels y e')
          (ap (λ r. some (quoted false k ++ (b':' ∷ (x ++ r))))
              (sym (more_entries-of_fields fields y))
            ∙ ap some (ok-injective h2))

  pub dumps-eq-ok :
      (v : Value) (t : Text)
      → dumps python (of_value v) ≡ ok t
      → dump_value python.float_repr v ≡ some t
  unfolding dump_value
  dumps-eq-ok v t h =
      write_datum-eq-ok (sort_value v) (suc python.dump_levels) t (sym (dumps-of_value v) ∙ h)

  pub dumps-sort : (v : Value) → dumps python (of_value (sort_value v)) ≡ dumps python (of_value v)
  dumps-sort v =
      dumps-of_value (sort_value v)
      ∙ ap (λ w. write_datum python (of_value w) (suc python.dump_levels)) (sort_value_idempotent v)
      ∙ sym (dumps-of_value v)
