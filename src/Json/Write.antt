-- ===== src/Json/Write.antt =====
-- `json.dumps(obj, allow_nan=False, ensure_ascii=False, separators=(",", ":"), sort_keys=True)` of any
-- value of JSON: the keys of every object sorted, then the text, where the stack is enough. Json/Datum
-- has `dumps` itself, with its exceptions, and Json/Embedding relates the two. What `dumps` refuses has
-- none: a byte string, a float that is not finite, an integer of more than 4300 digits.
use cypher_syntax.Py.Value.{
  Value, Items, Fields, str, bytes, int, bool, float, null, object, array, nil, cons, end, field,
  Text,
}
use cypher_syntax.Py.Text.{ascii, decimal}
use cypher_syntax.Json.Strings.{quoted}
use cypher_syntax.Json.Numbers.{int_text}
use cypher_syntax.Json.Dump.{text_le}
use cypher_syntax.Json.Parse.{◌>>=◌}
use cypher_syntax.Prelude.{
  ℕ, suc, Bool, true, false, Option, none, some, [], ◌∷◌, ◌++◌, leb, if◌then◌else◌, ℤ, pos, negsuc,
  length,
}

abbrev pub insert_field : Text → Value → Fields → Fields
insert_field k v end = field k v end
insert_field k v (field j w fields) =
    let rest = insert_field k v fields in
    if text_le k j then field k v (field j w fields) else field j w rest

unfoldable mutual
  pub sort_value : Value → Value
  sort_value (str t) = str t
  sort_value (bytes bs) = bytes bs
  sort_value (int z) = int z
  sort_value (bool b) = bool b
  sort_value (float t) = float t
  sort_value null = null
  sort_value (object fields) = object (sort_fields fields)
  sort_value (array items) = array (sort_items items)

  pub sort_items : Items → Items
  sort_items nil = nil
  sort_items (cons v items) = cons (sort_value v) (sort_items items)

  pub sort_fields : Fields → Fields
  sort_fields end = end
  sort_fields (field k v fields) = insert_field k (sort_value v) (sort_fields fields)

-- the digits of an integer, of which `int.__repr__` writes 4300 at most
abbrev pub max_int_digits : ℕ
max_int_digits = 4300

abbrev pub digits_of : ℤ → Text
digits_of (pos n) = decimal n
digits_of (negsuc n) = decimal (suc n)

abbrev pub int_repr : ℤ → Option Text
int_repr z = if leb (length (digits_of z)) max_int_digits then some (int_text z) else none

abbrev pub bool_text : Bool → Text
bool_text true = ascii "true"
bool_text false = ascii "false"

-- the members behind the first one, and their comma
abbrev pub more_fields : Fields → Text → Text
more_fields end rest = []
more_fields (field k v fields) rest = b',' ∷ rest

abbrev pub more_items : Items → Text → Text
more_items nil rest = []
more_items (cons v items) rest = b',' ∷ rest

-- `float.__repr__` of the number that a spelling denotes, where it is finite
module _ (float_repr : Text → Option Text) where
  unfoldable mutual
    pub write : Value → Option Text
    write (str t) = some (quoted false t)
    write (bytes bs) = none
    write (int z) = int_repr z
    write (bool b) = some (bool_text b)
    write (float t) = float_repr t
    write null = some (ascii "null")
    write (object fields) = write_fields fields >>= λ t. some (b'{' ∷ (t ++ b'}' ∷ []))
    write (array items) = write_items items >>= λ t. some (b'[' ∷ (t ++ b']' ∷ []))

    pub write_items : Items → Option Text
    write_items nil = some []
    write_items (cons v items) =
        write v >>= λ t. write_items items >>= λ rest. some (t ++ more_items items rest)

    pub write_fields : Fields → Option Text
    write_fields end = some []
    write_fields (field k v fields) = write v >>= λ t. write_fields fields >>= λ rest.
        some (quoted false k ++ (b':' ∷ (t ++ more_fields fields rest)))

  unfoldable pub dump_value : Value → Option Text
  dump_value v = write (sort_value v)
