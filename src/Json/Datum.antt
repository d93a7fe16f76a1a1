-- ===== src/Json/Datum.antt =====
-- What `json.dumps(obj, allow_nan=False, ensure_ascii=False, separators=(",", ":"), sort_keys=True)`
-- makes of any Python object: of dictionaries whose keys are no texts, of tuples, of objects nested
-- deeper than the stack, and of what has no text. Objects of subclasses, and cycles, are left out.
use cypher_syntax.Py.Result.{
  Result, ok, err, type_error, value_error, recursion_error, require, ◌>>=◌, ◌>>◌,
}
use cypher_syntax.Py.Value.{
  Value, Items, Fields, str, bytes, int, bool, float, null, object, array, nil, cons, end, field,
  Text, Bytes,
}
use cypher_syntax.Py.Text.{ascii}
use cypher_syntax.Json.Strings.{quoted}
use cypher_syntax.Json.Dump.{text_le}
use cypher_syntax.Json.Write.{int_repr, bool_text}
use cypher_syntax.Prelude.{
  ℕ, zero, suc, Bool, true, false, ◌&&◌, Option, none, some, [], ◌∷◌, ◌++◌, ◌==◌, if◌then◌else◌, ℤ,
  pos, leb, leb_ℤ,
}

-- the key of a dictionary; of a float its spelling
pub data Key : Type 0 where
  key_str : Text → Key
  key_int : ℤ → Key
  key_bool : Bool → Key
  key_float : Text → Key
  key_none key_other : Key

mutual
  pub data Datum : Type 0 where
    py_str : Text → Datum
    py_bytes : Bytes → Datum
    py_int : ℤ → Datum
    py_bool : Bool → Datum
    py_float : Text → Datum
    py_none py_other : Datum
    py_dict : Entries → Datum
    py_list : Elements → Datum
    py_tuple : Elements → Datum

  pub data Elements : Type 0 where
    no_more : Elements
    element : Datum → Elements → Elements

  -- in the order of insertion
  pub data Entries : Type 0 where
    no_key : Entries
    entry : Key → Datum → Entries → Entries

-- The release and the stack that the calls run on: `float.__repr__` of the number that a spelling
-- denotes, where it is finite; `<=` of two numbers of which one is a float; and how many levels of lists
-- and objects inside the outermost object `dumps` and `loads` can go down.
pub record Interpreter : Type 0 where
  pub float_repr : Text → Option Text
  pub float_le : Key → Key → Bool
  pub dump_levels : ℕ
  pub parse_levels : ℕ

-- keys of two classes are not ordered: TypeError
abbrev pub key_class : Key → ℕ
key_class (key_str t) = 0
key_class (key_int z) = 1
key_class (key_bool b) = 1
key_class (key_float t) = 1
key_class key_none = 2
key_class key_other = 3

abbrev pub all_of_class : ℕ → Entries → Bool
all_of_class n no_key = true
all_of_class n (entry k d entries) = n == key_class k && all_of_class n entries

abbrev pub are_ordered : Entries → Bool
are_ordered no_key = true
are_ordered (entry k d entries) = all_of_class (key_class k) entries

abbrev pub bool_int : Bool → ℤ
bool_int false = pos 0
bool_int true = pos 1

-- the members behind the first one, and their comma
abbrev pub more_entries : Entries → Text → Text
more_entries no_key rest = []
more_entries (entry k d entries) rest = b',' ∷ rest

abbrev pub more_elements : Elements → Text → Text
more_elements no_more rest = []
more_elements (element d elements) rest = b',' ∷ rest

-- a number that has no text: ValueError
abbrev pub printed : Option Text → Result Text
printed none = err value_error
printed (some t) = ok t

abbrev pub in_braces : Text → Result Text
in_braces t = ok (b'{' ∷ (t ++ b'}' ∷ []))

abbrev pub in_brackets : Text → Result Text
in_brackets t = ok (b'[' ∷ (t ++ b']' ∷ []))

module _ (python : Interpreter) where
  -- `<=` of two keys of one class; a dictionary with keys of two classes is not written, see `are_ordered`
  abbrev pub key_le : Key → Key → Bool
  key_le (key_str s) (key_str t) = text_le s t
  key_le (key_int m) (key_int n) = leb_ℤ m n
  key_le (key_int m) (key_bool c) = leb_ℤ m (bool_int c)
  key_le (key_bool b) (key_int n) = leb_ℤ (bool_int b) n
  key_le (key_bool b) (key_bool c) = leb_ℤ (bool_int b) (bool_int c)
  key_le j k = python.float_le j k

  abbrev pub insert_entry : Key → Datum → Entries → Entries
  insert_entry k d no_key = entry k d no_key
  insert_entry k d (entry j e entries) =
      let rest = insert_entry k d entries in
      if key_le k j then entry k d (entry j e entries) else entry j e rest

  -- the keys of every dictionary sorted, before they are written as texts
  unfoldable mutual
    pub sort_datum : Datum → Datum
    sort_datum (py_str t) = py_str t
    sort_datum (py_bytes bs) = py_bytes bs
    sort_datum (py_int z) = py_int z
    sort_datum (py_bool b) = py_bool b
    sort_datum (py_float t) = py_float t
    sort_datum py_none = py_none
    sort_datum py_other = py_other
    sort_datum (py_dict entries) = py_dict (sort_entries entries)
    sort_datum (py_list elements) = py_list (sort_elements elements)
    sort_datum (py_tuple elements) = py_tuple (sort_elements elements)

    pub sort_elements : Elements → Elements
    sort_elements no_more = no_more
    sort_elements (element d elements) = element (sort_datum d) (sort_elements elements)

    pub sort_entries : Entries → Entries
    sort_entries no_key = no_key
    sort_entries (entry k d entries) = insert_entry k (sort_datum d) (sort_entries entries)

  -- the text that a key is written as
  abbrev pub key_text : Key → Result Text
  key_text (key_str t) = ok t
  key_text (key_int z) = printed (int_repr z)
  key_text (key_bool b) = ok (bool_text b)
  key_text (key_float t) = printed (python.float_repr t)
  key_text key_none = ok (ascii "null")
  key_text key_other = err type_error

  -- the text of an object that is sorted, within a number of levels
  unfoldable mutual
    pub write_datum : Datum → ℕ → Result Text
    write_datum (py_str t) levels = ok (quoted false t)
    write_datum (py_bytes bs) levels = err type_error
    write_datum (py_int z) levels = printed (int_repr z)
    write_datum (py_bool b) levels = ok (bool_text b)
    write_datum (py_float t) levels = printed (python.float_repr t)
    write_datum py_none levels = ok (ascii "null")
    write_datum py_other levels = err type_error
    write_datum (py_dict entries) zero = err recursion_error
    write_datum (py_dict entries) (suc levels) =
        require (are_ordered entries) type_error >> write_entries entries levels >>= in_braces
    write_datum (py_list elements) zero = err recursion_error
    write_datum (py_list elements) (suc levels) = write_elements elements levels >>= in_brackets
    write_datum (py_tuple elements) zero = err recursion_error
    write_datum (py_tuple elements) (suc levels) = write_elements elements levels >>= in_brackets

    pub write_elements : Elements → ℕ → Result Text
    write_elements no_more levels = ok []
    write_elements (element d elements) levels = do
      t ← write_datum d levels
      rest ← write_elements elements levels
      ok (t ++ more_elements elements rest)

    pub write_entries : Entries → ℕ → Result Text
    write_entries no_key levels = ok []
    write_entries (entry k d entries) levels = do
      key ← key_text k
      t ← write_datum d levels
      rest ← write_entries entries levels
      ok (quoted false key ++ (b':' ∷ (t ++ more_entries entries rest)))

  -- `json.dumps`, of which the outermost level always has room on the stack
  unfoldable pub dumps : Datum → Result Text
  dumps d = write_datum (sort_datum d) (suc python.dump_levels)

-- a value of JSON as a Python object
unfoldable mutual
  pub of_value : Value → Datum
  of_value (str t) = py_str t
  of_value (bytes bs) = py_bytes bs
  of_value (int z) = py_int z
  of_value (bool b) = py_bool b
  of_value (float t) = py_float t
  of_value null = py_none
  of_value (object fields) = py_dict (of_fields fields)
  of_value (array items) = py_list (of_items items)

  pub of_items : Items → Elements
  of_items nil = no_more
  of_items (cons v items) = element (of_value v) (of_items items)

  pub of_fields : Fields → Entries
  of_fields end = no_key
  of_fields (field k v fields) = entry (key_str k) (of_value v) (of_fields fields)

abbrev pub higher : ℕ → ℕ → ℕ
higher m n = if leb m n then n else m

-- how many lists and objects are inside one another, at most
unfoldable mutual
  pub nesting : Value → ℕ
  nesting (object fields) = suc (fields_nesting fields)
  nesting (array items) = suc (items_nesting items)
  nesting _ = 0

  pub items_nesting : Items → ℕ
  items_nesting nil = 0
  items_nesting (cons v items) = higher (nesting v) (items_nesting items)

  pub fields_nesting : Fields → ℕ
  fields_nesting end = 0
  fields_nesting (field k v fields) = higher (nesting v) (fields_nesting fields)
