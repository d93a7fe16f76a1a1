-- ===== src/Json/Sorted.antt =====
-- Sorting the keys of an object: it keeps the keys, their values and their distinctness, and an object
-- that is sorted stays as it is.
use cypher_syntax.Py.Value.{
  Value, Items, Fields, str, bytes, int, bool, float, null, object, array, nil, cons, end, field,
  Text,
}
use cypher_syntax.Json.Dump.{text_le}
use cypher_syntax.Json.Parse.{has_key, distinct_keys}
use cypher_syntax.Json.Write.{insert_field, sort_value, sort_items, sort_fields}
use cypher_syntax.Prelude.{
  ◌≡◌, refl, ap, ◌∙◌, inl, inr, Bool, true, false, not, ◌&&◌, ◌||◌, [], ◌∷◌, arith, Bool-cases,
  list_eq, list_eq_iff,
}

pub text_le_total : (s t : Text) → text_le s t ≡ false → text_le t s ≡ true
text_le_total [] t h = absurd (cc)
text_le_total (c ∷ s) [] h = refl
text_le_total (c ∷ s) (d ∷ t) h = ground (arith, text_le_total s t)

pub has_key-insert :
    (key k : Text) (v : Value) (fields : Fields)
    → has_key key (insert_field k v fields) ≡ (list_eq k key || has_key key fields)
has_key-insert key k v end = refl
has_key-insert key k v (field j w fields) = ground (arith, has_key-insert key k v fields)

pub has_key-sort :
    (key : Text) (fields : Fields) → has_key key (sort_fields fields) ≡ has_key key fields
unfolding sort_fields
has_key-sort key end = refl
has_key-sort key (field k v fields) =
    has_key-insert key k (sort_value v) (sort_fields fields)
    ∙ ground (arith, has_key-sort key fields)

distinct-insert :
    (k : Text) (v : Value) (fields : Fields)
    → distinct_keys (insert_field k v fields) ≡ (not (has_key k fields) && distinct_keys fields)
unfolding distinct_keys
distinct-insert k v end = refl
distinct-insert k v (field j w fields) = ground (
  arith,
  distinct-insert k v fields,
  has_key-insert j k v fields,
  list_eq_iff j k,
  list_eq_iff k j,
)

pub distinct-sort : (fields : Fields) → distinct_keys (sort_fields fields) ≡ distinct_keys fields
unfolding sort_fields distinct_keys
distinct-sort end = refl
distinct-sort (field k v fields) =
    distinct-insert k (sort_value v) (sort_fields fields)
    ∙ ground (arith, distinct-sort fields, has_key-sort k fields)

abbrev starts_from : Text → Fields → Bool
starts_from k end = true
starts_from k (field j w fields) = text_le k j

-- the keys of every object ascend
abbrev mutual
  IsSorted : Value → Type 0
  IsSorted (object fields) = AreSorted fields
  IsSorted (array items) = EachSorted items
  IsSorted _ = Unit

  EachSorted : Items → Type 0
  EachSorted nil = Unit
  EachSorted (cons v items) = IsSorted v × EachSorted items

  AreSorted : Fields → Type 0
  AreSorted end = Unit
  AreSorted (field k v fields) = (starts_from k fields ≡ true) × IsSorted v × AreSorted fields

starts_from-insert :
    (k j : Text) (v : Value) (fields : Fields)
    → text_le k j ≡ true
    → starts_from k fields ≡ true
    → starts_from k (insert_field j v fields) ≡ true
starts_from-insert k j v end h s = h
starts_from-insert k j v (field i w fields) h s = ground arith

insert-AreSorted :
    (k : Text) (v : Value) (fields : Fields)
    → IsSorted v
    → AreSorted fields
    → AreSorted (insert_field k v fields)
insert-AreSorted k v end h s = (refl, h, tt)
insert-AreSorted k v (field j w fields) h (first, hw, s) = elim (Bool-cases (text_le k j)) [
  | inl e ↦ rw (e, insert_field) (e, h, (first, hw, s))
  | inr e ↦
      rw (e, insert_field)
        (
          starts_from-insert j k v fields (text_le_total k j e) first,
          hw,
          insert-AreSorted k v fields h s,
        )
]

mutual
  unfolding sort_value

  sort_value-IsSorted : (v : Value) → IsSorted (sort_value v)
  sort_value-IsSorted (str t) = tt
  sort_value-IsSorted (bytes bs) = tt
  sort_value-IsSorted (int z) = tt
  sort_value-IsSorted (bool b) = tt
  sort_value-IsSorted (float t) = tt
  sort_value-IsSorted null = tt
  sort_value-IsSorted (object fields) = sort_fields-AreSorted fields
  sort_value-IsSorted (array items) = sort_items-EachSorted items

  sort_items-EachSorted : (items : Items) → EachSorted (sort_items items)
  sort_items-EachSorted nil = tt
  sort_items-EachSorted (cons v items) = (sort_value-IsSorted v, sort_items-EachSorted items)

  sort_fields-AreSorted : (fields : Fields) → AreSorted (sort_fields fields)
  sort_fields-AreSorted end = tt
  sort_fields-AreSorted (field k v fields) =
      insert-AreSorted k (sort_value v) (sort_fields fields) (sort_value-IsSorted v)
        (sort_fields-AreSorted fields)

insert_first :
    (k : Text) (v : Value) (fields : Fields)
    → starts_from k fields ≡ true
    → insert_field k v fields ≡ field k v fields
insert_first k v end h = refl
insert_first k v (field j w fields) h = ground arith

mutual
  unfolding sort_value

  sorted_stays : (v : Value) → IsSorted v → sort_value v ≡ v
  sorted_stays (str t) h = refl
  sorted_stays (bytes bs) h = refl
  sorted_stays (int z) h = refl
  sorted_stays (bool b) h = refl
  sorted_stays (float t) h = refl
  sorted_stays null h = refl
  sorted_stays (object fields) h = ap object (fields_stay fields h)
  sorted_stays (array items) h = ap array (items_stay items h)

  items_stay : (items : Items) → EachSorted items → sort_items items ≡ items
  items_stay nil h = refl
  items_stay (cons v items) (h, hs) = rw (sorted_stays v h, items_stay items hs) refl

  fields_stay : (fields : Fields) → AreSorted fields → sort_fields fields ≡ fields
  fields_stay end h = refl
  fields_stay (field k v fields) (first, h, hs) =
      rw (sorted_stays v h, fields_stay fields hs) (insert_first k v fields first)

-- Sorting twice is sorting once.
pub sort_value_idempotent : (v : Value) → sort_value (sort_value v) ≡ sort_value v
sort_value_idempotent v = sorted_stays (sort_value v) (sort_value-IsSorted v)
