-- ===== src/Json/Object.antt =====
-- What the readers of src/cyphersyntax do with the object that `json.loads` returned: the tests of the
-- names of its fields, and the fields themselves.
use cypher_syntax.Py.Result.{Error, Result, ok, err}
use cypher_syntax.Py.Value.{Value, Fields, end, field, null, Text}
use cypher_syntax.Json.Parse.{has_key}
use cypher_syntax.Prelude.{
  Bool, true, false, ◌&&◌, ◌||◌, Option, none, some, List, [], ◌∷◌, if◌then◌else◌, list_eq,
}

-- every name is that of a field
abbrev pub has_all : List Text → Fields → Bool
has_all [] fields = true
has_all (name ∷ names) fields = has_key name fields && has_all names fields

abbrev is_among : List Text → Text → Bool
is_among [] key = false
is_among (name ∷ names) key = list_eq name key || is_among names key

abbrev pub only_among : List Text → Fields → Bool
only_among names end = true
only_among names (field key value fields) = is_among names key && only_among names fields

-- `raw[name]`, of a name that is there
abbrev pub lookup : Text → Fields → Value
lookup name end = null
lookup name (field key value fields) = if list_eq key name then value else lookup name fields

-- the text of the bytes, read as JSON; every way to fail is one exception
abbrev pub parsed : Error → Option Value → Result Value
parsed error (some value) = ok value
parsed error none = err error
