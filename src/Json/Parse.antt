-- ===== src/Json/Parse.antt =====
-- `json.loads`. Every caller turns each way to fail into one exception of its own, a duplicate key
-- and a refused constant included, so a failure is `none`. Each value, member and item takes one unit of
-- fuel, and there are fewer of these than characters.
use cypher_syntax.Py.Value.{
  Value, Items, Fields, str, float, null, bool, array, object, nil, cons, end, field, Text,
}
use cypher_syntax.Py.Text.{ascii}
use cypher_syntax.Json.Scan.{scan, among}
use cypher_syntax.Json.Numbers.{read_number, is_digit}
use cypher_syntax.Prelude.{
  ℕ, zero, suc, Bool, true, false, not, ◌&&◌, ◌||◌, Option, none, some, List, [], ◌∷◌, ◌==◌,
  if◌then◌else◌, length, list_eq,
}

infixl 5 ◌>>=◌
abbrev pub ◌>>=◌ {ℓ κ} : {A : Type ℓ} {B : Type κ} → Option A → (A → Option B) → Option B
none >>= next = none
some value >>= next = next value

abbrev pub is_blank : ℕ → Bool
is_blank c = c == 32 || c == 9 || c == 10 || c == 13

unfoldable pub skip_blanks : Text → Text
skip_blanks [] = []
skip_blanks (c ∷ text) = if is_blank c then skip_blanks text else c ∷ text

-- the text behind a prefix
unfoldable pub strip_prefix : Text → Text → Option Text
strip_prefix [] text = some text
strip_prefix (p ∷ prefix) [] = none
strip_prefix (p ∷ prefix) (c ∷ text) =
    let rest = strip_prefix prefix text in if p == c then rest else none

abbrev pub has_key : Text → Fields → Bool
has_key key end = false
has_key key (field k v fields) = list_eq k key || has_key key fields

-- `_reject_duplicate_keys`: the hook of an object, given all its pairs
unfoldable pub distinct_keys : Fields → Bool
distinct_keys end = true
distinct_keys (field k v fields) = not (has_key k fields) && distinct_keys fields

-- what a value may begin with
pub data Lead : Type 0 where
  quote brace bracket digit minus other : Lead

abbrev pub lead_of : ℕ → Lead
lead_of c =
    if c == b'"'
    then quote
    else if c == b'{'
    then brace
    else if c == b'['
    then bracket
    else if is_digit c
    then digit
    else if c == b'-'
    then minus
    else other

-- names of values, and constants that the hook accepts or refuses
abbrev pub names : Bool → List (Text × Value)
names constants =
    (ascii "null", null)
    ∷ (ascii "true", bool true)
    ∷ (ascii "false", bool false)
    ∷ (if constants
        then (ascii "NaN", float (ascii "NaN")) ∷ (ascii "Infinity", float (ascii "Infinity")) ∷ []
        else [])

abbrev pub first_name : List (Text × Value) → Text → Option (Value × Text)
first_name [] text = none
first_name ((name, value) ∷ more) text = elim (strip_prefix name text) [
  | some rest ↦ some (value, rest)
  | none ↦ first_name more text
]

abbrev pub minus_infinity : Bool → Text → Option (Value × Text)
minus_infinity constants text = do
  rest ← strip_prefix (ascii "Infinity") text
  (if constants then some (float (ascii "-Infinity"), rest) else none)

abbrev pub negative_number : Bool → Text → Option (Value × Text)
negative_number constants text = elim (read_number true text) [
  | some p ↦ some p
  | none ↦ minus_infinity constants text
]

-- the text behind one character, blanks in front of it skipped
abbrev pub expect : ℕ → Text → Option Text
expect mark text = strip_prefix (mark ∷ []) (skip_blanks text)

-- what stands behind a member or an item
pub data After : Type 0 where
  more done broken : After

abbrev pub after_of : ℕ → ℕ → After
after_of closing c = if c == b',' then more else if c == closing then done else broken

abbrev pub next_mark : ℕ → Text → After × Text
next_mark closing [] = (broken, [])
next_mark closing (c ∷ text) = (after_of closing c, text)

-- a key and its colon, with the blanks behind it
unfoldable pub read_key : Text → Option (Text × Text)
read_key text = do
  opened ← strip_prefix (b'"' ∷ []) text
  p ← scan opened (among none)
  rest ← expect b':' p.1
  some (p.0, skip_blanks rest)

abbrev pub unique : Fields × Text → Option (Value × Text)
unique (fields, rest) = if distinct_keys fields then some (object fields, rest) else none

unfoldable mutual
  pub read_value : Bool → ℕ → Text → Option (Value × Text)
  read_value constants zero text = none
  read_value constants (suc fuel) [] = none
  read_value constants (suc fuel) (c ∷ text) = elim (lead_of c) [
    | quote ↦ scan text (among none) >>= λ p. some (str p.0, p.1)
    | brace ↦ elim (expect b'}' text) [
      | some rest ↦ some (object end, rest)
      | none ↦ read_members constants fuel (skip_blanks text) >>= unique
    ]
    | bracket ↦ elim (expect b']' text) [
      | some rest ↦ some (array nil, rest)
      | none ↦ read_items constants fuel (skip_blanks text) >>= λ p. some (array p.0, p.1)
    ]
    | digit ↦ read_number false (c ∷ text)
    | minus ↦ negative_number constants text
    | other ↦ first_name (names constants) (c ∷ text)
  ]

  pub read_members : Bool → ℕ → Text → Option (Fields × Text)
  read_members constants zero text = none
  read_members constants (suc fuel) text = read_key text >>= λ k.
      read_value constants fuel k.1 >>= λ v. elim (next_mark b'}' (skip_blanks v.1)).0 [
        | more ↦
            read_members constants fuel (skip_blanks (next_mark b'}' (skip_blanks v.1)).1) >>= λ m.
            some (field k.0 v.0 m.0, m.1)
        | done ↦ some (field k.0 v.0 end, (next_mark b'}' (skip_blanks v.1)).1)
        | broken ↦ none
      ]

  pub read_items : Bool → ℕ → Text → Option (Items × Text)
  read_items constants zero text = none
  read_items constants (suc fuel) text = read_value constants fuel text >>= λ v.
      elim (next_mark b']' (skip_blanks v.1)).0 [
        | more ↦
            read_items constants fuel (skip_blanks (next_mark b']' (skip_blanks v.1)).1) >>= λ m.
            some (cons v.0 m.0, m.1)
        | done ↦ some (cons v.0 nil, (next_mark b']' (skip_blanks v.1)).1)
        | broken ↦ none
      ]

abbrev pub at_end : Value × Text → Option Value
at_end (value, []) = some value
at_end (value, c ∷ rest) = none

-- `json.loads(text)`; the flag says whether NaN and the infinities are accepted
unfoldable pub loads : Bool → Text → Option Value
unfolding read_value scan
loads constants text = do
  p ← read_value constants (suc (length text)) (skip_blanks text)
  at_end (p.0, skip_blanks p.1)
