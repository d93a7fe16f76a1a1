-- ===== src/Json/Written.antt =====
-- The texts that `dumps` writes of values that JSON keeps: values without floats and byte strings, whose
-- objects have distinct keys and whose texts no surrogates.
use mathlib.Core.Path.{subst}
use cypher_syntax.Py.Value.{
  Value, Items, Fields, str, bytes, int, bool, float, null, object, array, nil, cons, end, field,
  Text,
}
use cypher_syntax.Py.Text.{all_of}
use cypher_syntax.Py.Utf8.{is_scalar}
use cypher_syntax.Json.Strings.{quoted}
use cypher_syntax.Json.Numbers.{int_text, decimal-first, is_digit}
use cypher_syntax.Json.Parse.{
  ◌>>=◌, is_blank, skip_blanks, strip_prefix, expect, read_key, distinct_keys,
}
use cypher_syntax.Json.Write.{int_repr, more_fields, more_items, write, write_items, write_fields}
use cypher_syntax.Json.Roundtrip.{read_key-quoted}
use cypher_syntax.Prelude.{
  ℕ, ◌+◌, ◌<◌, ◌≡◌, refl, sym, ap, ◌∙◌, true, false, Option, none, some, ◌∷◌, ◌++◌, append_assoc,
  arith, ◌==◌, ℤ, pos, negsuc, length, length-append,
}

-- what JSON keeps as it is, whatever the Python release prints of a float
abbrev mutual
  pub IsReadable : Value → Type 0
  IsReadable (str t) = all_of is_scalar t ≡ true
  IsReadable (bytes bs) = ⊥
  IsReadable (int z) = Unit
  IsReadable (bool b) = Unit
  IsReadable (float t) = ⊥
  IsReadable null = Unit
  IsReadable (object fields) = (distinct_keys fields ≡ true) × AreReadable fields
  IsReadable (array items) = EachReadable items

  pub EachReadable : Items → Type 0
  EachReadable nil = Unit
  EachReadable (cons v items) = IsReadable v × EachReadable items

  pub AreReadable : Fields → Type 0
  AreReadable end = Unit
  AreReadable (field k v fields) = (all_of is_scalar k ≡ true) × IsReadable v × AreReadable fields

pub bind-eq-some :
    {A B : Type 0} (o : Option A) (next : A → Option B) {b : B}
    → (o >>= next) ≡ some b
    → (a : A) × (o ≡ some a) × (next a ≡ some b)
bind-eq-some none next h = absurd (cc)
bind-eq-some (some a) next h = (a, refl, h)

pub some-injective : {A : Type 0} {a b : A} → some a ≡ some b → a ≡ b
some-injective h = cc

-- the first character of a value: no blank, and no end of a list
pub record Begins (t : Text) : Type 0 where
  pub first : ℕ
  pub others : Text
  pub spelled : t ≡ first ∷ others
  pub visible : is_blank first ≡ false
  pub no_end : (b']' == first) ≡ false

digits-Begins : (t : Text) → ((d : ℕ) × (ds : Text) × (t ≡ d ∷ ds) × (is_digit d ≡ true)) → Begins t
digits-Begins t (d, ds, e, h) = record {
  first = d;
  others = ds;
  spelled = e;
  visible = ground arith;
  no_end = ground arith;
}

begins :
    (c : ℕ) (others t : Text) → c ∷ others ≡ t → is_blank c ≡ false → (b']' == c) ≡ false → Begins t
begins c others t e v n = record {
  first = c;
  others = others;
  spelled = sym e;
  visible = v;
  no_end = n;
}

pub int_repr_text : (z : ℤ) (t : Text) → int_repr z ≡ some t → int_text z ≡ t
int_repr_text z t h = ground (arith, h)

module _ (float_repr : Text → Option Text) where
  int-Begins : (z : ℤ) (t : Text) → int_repr z ≡ some t → Begins t
  unfolding int_text
  int-Begins (pos n) t h = digits-Begins t (
      subst (λ (t : Text). (d : ℕ) × (ds : Text) × (t ≡ d ∷ ds) × (is_digit d ≡ true))
        (int_repr_text (pos n) t h) (decimal-first n))
  int-Begins (negsuc n) t h = begins b'-' _ t (int_repr_text (negsuc n) t h) refl refl

  pub write-Begins : (v : Value) (t : Text) → IsReadable v → write float_repr v ≡ some t → Begins t
  unfolding write
  write-Begins (str s) t r h = begins b'"' _ t (some-injective h) refl refl
  write-Begins (bytes bs) t r h = absurd r
  write-Begins (int z) t r h = int-Begins z t h
  write-Begins (bool true) t r h = begins b't' _ t (some-injective h) refl refl
  write-Begins (bool false) t r h = begins b'f' _ t (some-injective h) refl refl
  write-Begins (float s) t r h = absurd r
  write-Begins null t r h = begins b'n' _ t (some-injective h) refl refl
  write-Begins (object fields) t r h =
      let (u, _, e) = bind-eq-some (write_fields float_repr fields) _ h in
      begins b'{' _ t (some-injective e) refl refl
  write-Begins (array items) t r h =
      let (u, _, e) = bind-eq-some (write_items float_repr items) _ h in
      begins b'[' _ t (some-injective e) refl refl

pub skip-Begins : (t rest : Text) → Begins t → skip_blanks (t ++ rest) ≡ t ++ rest
unfolding skip_blanks
skip-Begins t rest b = rw (b.spelled, b.visible) refl

pub open-Begins : (t rest : Text) → Begins t → expect b']' (t ++ rest) ≡ none
unfolding skip_blanks strip_prefix
open-Begins t rest b = rw (b.spelled, b.visible, strip_prefix, b.no_end) refl

module _ (float_repr : Text → Option Text) where
  -- the text of a member and of those behind it
  pub record FieldText (k : Text) (v : Value) (fields : Fields) (t : Text) : Type 0 where
    pub value : Text
    pub behind : Text
    pub value_written : write float_repr v ≡ some value
    pub behind_written : write_fields float_repr fields ≡ some behind
    pub spelled : t ≡ quoted false k ++ (b':' ∷ (value ++ more_fields fields behind))

  pub write_fields-FieldText :
      (k : Text) (v : Value) (fields : Fields) (t : Text)
      → write_fields float_repr (field k v fields) ≡ some t
      → FieldText k v fields t
  unfolding write
  write_fields-FieldText k v fields t h =
      let (u, hu, h1) = bind-eq-some (write float_repr v) _ h in
      let (r, hr, h2) = bind-eq-some (write_fields float_repr fields) _ h1 in
      record {
        value = u;
        behind = r;
        value_written = hu;
        behind_written = hr;
        spelled = sym (some-injective h2);
      }

  pub record ItemText (v : Value) (items : Items) (t : Text) : Type 0 where
    pub value : Text
    pub behind : Text
    pub value_written : write float_repr v ≡ some value
    pub behind_written : write_items float_repr items ≡ some behind
    pub spelled : t ≡ value ++ more_items items behind

  pub write_items-ItemText :
      (v : Value) (items : Items) (t : Text)
      → write_items float_repr (cons v items) ≡ some t
      → ItemText v items t
  unfolding write
  write_items-ItemText v items t h =
      let (u, hu, h1) = bind-eq-some (write float_repr v) _ h in
      let (r, hr, h2) = bind-eq-some (write_items float_repr items) _ h1 in
      record {
        value = u;
        behind = r;
        value_written = hu;
        behind_written = hr;
        spelled = sym (some-injective h2);
      }

  -- what stands behind a value
  spelled_on :
      (k : Text) (v : Value) (fields : Fields) (t rest tail : Text) (x : FieldText k v fields t)
      → more_fields fields x.behind ++ rest ≡ tail
      → t ++ rest ≡ quoted false k ++ (b':' ∷ (x.value ++ tail))
  spelled_on k v fields t rest tail x e =
      ap (λ u. u ++ rest) x.spelled
      ∙ append_assoc (quoted false k) (b':' ∷ (x.value ++ more_fields fields x.behind)) rest
      ∙ ap (λ (u : Text). quoted false k ++ (b':' ∷ u))
          (append_assoc x.value (more_fields fields x.behind) rest ∙ ap (λ u. x.value ++ u) e)

  -- the value of a member, behind its key
  pub key_read :
      (k : Text) (v : Value) (fields : Fields) (t rest tail : Text) (x : FieldText k v fields t)
      → all_of is_scalar k ≡ true
      → IsReadable v
      → more_fields fields x.behind ++ rest ≡ tail
      → read_key (t ++ rest) ≡ some (k, x.value ++ tail)
  key_read k v fields t rest tail x clean r e =
      ap read_key (spelled_on k v fields t rest tail x e)
      ∙ read_key-quoted false k (x.value ++ tail) clean
      ∙ ap (λ u. some (k, u))
          (skip-Begins x.value tail (write-Begins float_repr v x.value r x.value_written))

  pub length-FieldText :
      (k : Text) (v : Value) (fields : Fields) (t : Text) (x : FieldText k v fields t)
      → length x.value + length (more_fields fields x.behind) < length t
  length-FieldText k v fields t x =
      rw (x.spelled, length-append (quoted false k) _, length-append x.value _) (omega arith)

  pub length-ItemText :
      (v : Value) (items : Items) (t : Text) (x : ItemText v items t)
      → length t ≡ length x.value + length (more_items items x.behind)
  length-ItemText v items t x =
      ap length x.spelled ∙ length-append x.value (more_items items x.behind)

  pub fields_begin :
      (k : Text) (v : Value) (fields : Fields) (t rest : Text)
      → write_fields float_repr (field k v fields) ≡ some t
      → (skip_blanks (t ++ rest) ≡ t ++ rest) × (expect b'}' (t ++ rest) ≡ none)
  unfolding skip_blanks strip_prefix
  fields_begin k v fields t rest h =
      rw ((write_fields-FieldText k v fields t h).spelled) (refl, refl)

  pub items_begin :
      (v : Value) (items : Items) (t : Text)
      → EachReadable (cons v items)
      → write_items float_repr (cons v items) ≡ some t
      → Begins t
  items_begin v items t (r, rs) h =
      let x = write_items-ItemText v items t h in
      let b = write-Begins float_repr v x.value r x.value_written in
      record {
        first = b.first;
        others = b.others ++ more_items items x.behind;
        spelled = x.spelled ∙ ap (λ u. u ++ more_items items x.behind) b.spelled;
        visible = b.visible;
        no_end = b.no_end;
      }

  pub items_on :
      (v : Value) (items : Items) (t rest tail : Text) (x : ItemText v items t)
      → more_items items x.behind ++ rest ≡ tail
      → t ++ rest ≡ x.value ++ tail
  items_on v items t rest tail x e =
      ap (λ u. u ++ rest) x.spelled
      ∙ append_assoc x.value (more_items items x.behind) rest
      ∙ ap (λ u. x.value ++ u) e
