-- ===== src/Names.antt =====
-- The test of a participant's name, which three modules of src/cyphersyntax spell out alike with
-- exceptions of their own: `_validate_name` of handshake.py, `_validate_participant_name` of wire.py
-- and the first part of `_validate_identity_name` of identity.py. Which characters are printable
-- is in the interpreter's Unicode database, and is the parameter `printable`.
use cypher_syntax.Py.Result.{Error, Result, ok, err, ◌>>◌, require}
use cypher_syntax.Py.Value.{Value, str, Text, Bytes}
use cypher_syntax.Py.Text.{strip, all_of}
use cypher_syntax.Py.Utf8.{encode, encode-all_of, is_scalar}
use cypher_syntax.Protocol.{max_participant_name_bytes}
use cypher_syntax.Prelude.{
  ℕ, ◌≡◌, refl, Bool, true, false, not, ◌&&◌, Option, none, some, arith, leb, ◌==◌, length, list_eq,
  list_eq_iff,
}

abbrev pub has_name_length : Option Bytes → Bool
has_name_length none = false
has_name_length (some encoded) =
    not (length encoded == 0) && leb (length encoded) max_participant_name_bytes

has_encoding : (o : Option Bytes) → has_name_length o ≡ true → (bs : Bytes) × (o ≡ some bs)
has_encoding none h = absurd (cc)
has_encoding (some bs) h = (bs, refl)

module _ (printable : ℕ → Bool) where
  -- the exceptions of a value that is no text, and of a text that is no name
  unfoldable pub validate_name : Error → Error → Value → Result Text
  validate_name not_text not_name (str text) = do
    require (has_name_length (encode text)) not_name
    require (list_eq text (strip text)) not_name
    require (all_of printable text) not_name
    ok text
  validate_name not_text not_name _ = err not_text

  -- what a name is
  pub record IsName (text : Text) : Type 0 where
    pub sized : has_name_length (encode text) ≡ true
    pub stripped : strip text ≡ text
    pub visible : all_of printable text ≡ true

  pub validate_name_sound :
      (e f : Error) (v : Value) (text : Text)
      → validate_name e f v ≡ ok text
      → (v ≡ str text) × IsName text
  unfolding validate_name
  validate_name_sound e f (str t) text h = ground (arith, list_eq_iff t (strip t))
  validate_name_sound e f _ text h = absurd (cc)

  pub validate_name_complete :
      (e f : Error) (text : Text) → IsName text → validate_name e f (str text) ≡ ok text
  unfolding validate_name
  validate_name_complete e f text h =
      ground (arith, list_eq_iff text (strip text), h.sized, h.stripped, h.visible)

  pub name_clean : (t : Text) → IsName t → all_of is_scalar t ≡ true
  name_clean t fit = let (bs, e) = has_encoding (encode t) fit.sized in encode-all_of t bs e
