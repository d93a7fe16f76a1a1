-- ===== src/Json/Reread.antt =====
-- That `loads` reads back what `dumps` wrote of a value that JSON keeps.
use cypher_syntax.Py.Value.{
  Value, Items, Fields, str, bytes, int, bool, float, null, object, array, nil, cons, end, field,
  Text,
}
use cypher_syntax.Py.Text.{all_of}
use cypher_syntax.Py.Utf8.{is_scalar}
use cypher_syntax.Json.Numbers.{Stops}
use cypher_syntax.Json.Parse.{skip_blanks, read_value, read_members, read_items, loads}
use cypher_syntax.Json.Write.{
  write, write_items, write_fields, dump_value, sort_value, sort_items, sort_fields, insert_field,
}
use cypher_syntax.Json.Dump.{text_le}
use cypher_syntax.Json.Sorted.{distinct-sort}
use cypher_syntax.Json.Roundtrip.{
  read_value-quoted, read_members-last, read_members-more, read_value-brace,
}
use cypher_syntax.Prelude.{
  ℕ, zero, suc, ◌≤◌, ◌<◌, ◌≡◌, refl, sym, ap, ◌∙◌, inl, inr, Bool, true, false, Option, some, [],
  ◌∷◌, ◌++◌, append_assoc, append-nil, arith, Bool-cases, length,
}
use cypher_syntax.Json.Written.{
  IsReadable, EachReadable, AreReadable, some-injective, bind-eq-some, int_repr_text, write-Begins,
  skip-Begins, open-Begins, write_fields-FieldText, write_items-ItemText, key_read,
  length-FieldText, length-ItemText, fields_begin, items_begin, items_on,
}
use cypher_syntax.Json.Readers.{
  respelled, read_value-int, read_value-bool, read_value-null, read_value-no_fields,
  read_value-no_items, closed_length, read_items-last, read_items-more, read_value-bracket,
}

module _ (float_repr : Text → Option Text) where
  mutual
    unfolding write

    read_value-write :
        (constants : Bool) (v : Value) (t rest : Text) (fuel : ℕ)
        → IsReadable v
        → write float_repr v ≡ some t
        → Stops rest
        → length t ≤ fuel
        → read_value constants fuel (t ++ rest) ≡ some (v, rest)
    read_value-write constants v t rest zero r h s bound =
        absurd
          (let b = write-Begins float_repr v t r h in omega (arith, ap length b.spelled, bound))
    read_value-write constants (str x) t rest (suc fuel) r h s bound =
        respelled constants fuel (str x) rest (some-injective h)
          (read_value-quoted constants false fuel x rest r)
    read_value-write constants (bytes bs) t rest (suc fuel) r h s bound = absurd r
    read_value-write constants (int z) t rest (suc fuel) r h s bound =
        respelled constants fuel (int z) rest (int_repr_text z t h)
          (read_value-int constants fuel z rest s)
    read_value-write constants (bool b) t rest (suc fuel) r h s bound =
        respelled constants fuel (bool b) rest (some-injective h)
          (read_value-bool constants fuel b rest)
    read_value-write constants (float x) t rest (suc fuel) r h s bound = absurd r
    read_value-write constants null t rest (suc fuel) r h s bound =
        respelled constants fuel null rest (some-injective h) (read_value-null constants fuel rest)
    read_value-write constants (object end) t rest (suc fuel) r h s bound =
        respelled constants fuel (object end) rest (some-injective h)
          (read_value-no_fields constants fuel rest)
    read_value-write constants (object (field k v fields)) t rest (suc fuel) (d, r) h s bound =
        let (u, hu, e) = bind-eq-some (write_fields float_repr (field k v fields)) _ h in
        let opened = fields_begin float_repr k v fields u (b'}' ∷ rest) hu in
        respelled constants fuel (object (field k v fields)) rest (some-injective e) (
          ap (λ (x : Text). read_value constants (suc fuel) (b'{' ∷ x))
            (append_assoc u (b'}' ∷ []) rest)
          ∙ read_value-brace constants fuel (u ++ (b'}' ∷ rest)) rest (field k v fields) opened.1
              opened.0
              (read_members-write constants k v fields u rest fuel r hu
                (closed_length b'{' b'}' u t fuel (some-injective e) bound))
              d)
    read_value-write constants (array nil) t rest (suc fuel) r h s bound =
        respelled constants fuel (array nil) rest (some-injective h)
          (read_value-no_items constants fuel rest)
    read_value-write constants (array (cons v items)) t rest (suc fuel) r h s bound =
        let (u, hu, e) = bind-eq-some (write_items float_repr (cons v items)) _ h in
        let b = items_begin float_repr v items u r hu in
        respelled constants fuel (array (cons v items)) rest (some-injective e) (
          ap (λ (x : Text). read_value constants (suc fuel) (b'[' ∷ x))
            (append_assoc u (b']' ∷ []) rest)
          ∙ read_value-bracket constants fuel (u ++ (b']' ∷ rest)) rest (cons v items)
              (open-Begins u (b']' ∷ rest) b) (skip-Begins u (b']' ∷ rest) b)
              (read_items-write constants v items u rest fuel r hu
                (closed_length b'[' b']' u t fuel (some-injective e) bound)))

    read_items-write :
        (constants : Bool) (v : Value) (items : Items) (t rest : Text) (fuel : ℕ)
        → EachReadable (cons v items)
        → write_items float_repr (cons v items) ≡ some t
        → length t < fuel
        → read_items constants fuel (t ++ (b']' ∷ rest)) ≡ some (cons v items, rest)
    read_items-write constants v items t rest zero r h bound = absurd (omega (arith, bound))
    read_items-write constants v nil t rest (suc fuel) (r, rs) h bound =
        let x = write_items-ItemText float_repr v nil t h in
        read_items-last constants fuel (t ++ (b']' ∷ rest)) rest v (
          ap (read_value constants fuel)
            (items_on float_repr v nil t (b']' ∷ rest) (b']' ∷ rest) x refl)
          ∙ read_value-write constants v x.value (b']' ∷ rest) fuel r x.value_written (ground arith)
              (omega (arith, length-ItemText float_repr v nil t x, bound)))
    read_items-write constants v (cons w items) t rest (suc fuel) (r, rs) h bound =
        let x = write_items-ItemText float_repr v (cons w items) t h in
        let b = items_begin float_repr w items x.behind rs x.behind_written in
        read_items-more constants fuel (t ++ (b']' ∷ rest)) (x.behind ++ (b']' ∷ rest)) rest v
          (cons w items)
          (ap (read_value constants fuel) (
              items_on float_repr v (cons w items) t (b']' ∷ rest)
                (b',' ∷ (x.behind ++ (b']' ∷ rest))) x refl)
            ∙ read_value-write constants v x.value (b',' ∷ (x.behind ++ (b']' ∷ rest))) fuel r
                x.value_written (ground arith)
                (omega (arith, length-ItemText float_repr v (cons w items) t x, bound)))
          (ap (read_items constants fuel) (skip-Begins x.behind (b']' ∷ rest) b)
            ∙ read_items-write constants w items x.behind rest fuel rs x.behind_written
                (omega (arith, length-ItemText float_repr v (cons w items) t x, bound)))

    read_members-write :
        (constants : Bool) (k : Text) (v : Value) (fields : Fields) (t rest : Text) (fuel : ℕ)
        → AreReadable (field k v fields)
        → write_fields float_repr (field k v fields) ≡ some t
        → length t < fuel
        → read_members constants fuel (t ++ (b'}' ∷ rest)) ≡ some (field k v fields, rest)
    read_members-write constants k v fields t rest zero r h bound = absurd (omega (arith, bound))
    read_members-write constants k v end t rest (suc fuel) (clean, r, rs) h bound =
        let x = write_fields-FieldText float_repr k v end t h in
        read_members-last constants fuel (t ++ (b'}' ∷ rest)) (x.value ++ (b'}' ∷ rest)) k rest v
          (key_read float_repr k v end t (b'}' ∷ rest) (b'}' ∷ rest) x clean r refl)
          (read_value-write constants v x.value (b'}' ∷ rest) fuel r x.value_written (ground arith)
            (omega (arith, length-FieldText float_repr k v end t x, bound)))
    read_members-write constants k v (field j w fields) t rest (suc fuel) (clean, r, rs) h bound =
        let x = write_fields-FieldText float_repr k v (field j w fields) t h in
        let more = fields_begin float_repr j w fields x.behind (b'}' ∷ rest) x.behind_written in
        read_members-more constants fuel (t ++ (b'}' ∷ rest))
          (x.value ++ (b',' ∷ (x.behind ++ (b'}' ∷ rest)))) (x.behind ++ (b'}' ∷ rest)) k rest v
          (field j w fields)
          (key_read float_repr k v (field j w fields) t (b'}' ∷ rest)
            (b',' ∷ (x.behind ++ (b'}' ∷ rest))) x clean r refl)
          (read_value-write constants v x.value (b',' ∷ (x.behind ++ (b'}' ∷ rest))) fuel r
            x.value_written (ground arith)
            (omega (arith, length-FieldText float_repr k v (field j w fields) t x, bound)))
          (ap (read_members constants fuel) more.0
            ∙ read_members-write constants j w fields x.behind rest fuel rs x.behind_written
                (omega (arith, length-FieldText float_repr k v (field j w fields) t x, bound)))

insert-AreReadable :
    (k : Text) (v : Value) (fields : Fields)
    → all_of is_scalar k ≡ true
    → IsReadable v
    → AreReadable fields
    → AreReadable (insert_field k v fields)
insert-AreReadable k v end clean h s = (clean, h, tt)
insert-AreReadable k v (field j w fields) clean h (clean', h', s) =
    elim (Bool-cases (text_le k j)) [
      | inl e ↦ rw (e, insert_field) (clean, h, (clean', h', s))
      | inr e ↦ rw (e, insert_field) (clean', h', insert-AreReadable k v fields clean h s)
    ]

mutual
  unfolding sort_value

  sort_value-IsReadable : (v : Value) → IsReadable v → IsReadable (sort_value v)
  sort_value-IsReadable (str t) h = h
  sort_value-IsReadable (bytes bs) h = h
  sort_value-IsReadable (int z) h = h
  sort_value-IsReadable (bool b) h = h
  sort_value-IsReadable (float t) h = h
  sort_value-IsReadable null h = h
  sort_value-IsReadable (object fields) (d, h) =
      (distinct-sort fields ∙ d, sort_fields-AreReadable fields h)
  sort_value-IsReadable (array items) h = sort_items-EachReadable items h

  sort_items-EachReadable : (items : Items) → EachReadable items → EachReadable (sort_items items)
  sort_items-EachReadable nil h = h
  sort_items-EachReadable (cons v items) (h, hs) =
      (sort_value-IsReadable v h, sort_items-EachReadable items hs)

  sort_fields-AreReadable :
      (fields : Fields) → AreReadable fields → AreReadable (sort_fields fields)
  sort_fields-AreReadable end h = h
  sort_fields-AreReadable (field k v fields) (clean, h, hs) =
      insert-AreReadable k (sort_value v) (sort_fields fields) clean (sort_value-IsReadable v h)
        (sort_fields-AreReadable fields hs)

loads-write :
    (float_repr : Text → Option Text) (constants : Bool) (v : Value) (t : Text)
    → IsReadable v
    → write float_repr v ≡ some t
    → loads constants t ≡ some v
unfolding loads skip_blanks
loads-write float_repr constants v t r h =
    let b = write-Begins float_repr v t r h in
    let kept : skip_blanks t ≡ t =
      ap skip_blanks (sym (append-nil t)) ∙ skip-Begins t [] b ∙ append-nil t in
    let read : read_value constants (suc (length t)) t ≡ some (v, []) =
      ap (read_value constants (suc (length t))) (sym (append-nil t))
      ∙ read_value-write float_repr constants v t [] (suc (length t)) r h tt (omega arith) in
    rw (kept, read) refl

-- The text of a value is read back as the value, the keys of its objects sorted.
pub loads-dump_value :
    (float_repr : Text → Option Text) (constants : Bool) (v : Value) (t : Text)
    → IsReadable v
    → dump_value float_repr v ≡ some t
    → loads constants t ≡ some (sort_value v)
unfolding dump_value
loads-dump_value float_repr constants v t r h =
    loads-write float_repr constants (sort_value v) t (sort_value-IsReadable v r) h
