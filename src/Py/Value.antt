-- ===== src/Py/Value.antt =====
-- The Python values that reach a validator, among them all that `json.loads` returns. A text is
-- the list of its code points, a byte string the list of its bytes; of a float its spelling is kept.
use cypher_syntax.Prelude.{ℕ, ℤ, Bool, List}

abbrev pub Bytes : Type 0
Bytes = List ℕ

abbrev pub Text : Type 0
Text = List ℕ

mutual
  pub data Value : Type 0 where
    str : Text → Value
    bytes : Bytes → Value
    int : ℤ → Value
    bool : Bool → Value
    float : Text → Value
    null : Value
    object : Fields → Value
    array : Items → Value

  pub data Items : Type 0 where
    nil : Items
    cons : Value → Items → Items

  -- a `dict`, its entries in the order of insertion
  pub data Fields : Type 0 where
    end : Fields
    field : Text → Value → Fields → Fields
