-- ===== src/Json/Dump.antt =====
-- `json.dumps(payload, separators=(",", ":"), sort_keys=True)` of an object whose values are texts and
-- integers, which are all that the messages hold.
use cypher_syntax.Py.Value.{Value, Fields, int, str, end, field, Text}
use cypher_syntax.Json.Strings.{quoted}
use cypher_syntax.Json.Numbers.{int_text}
use cypher_syntax.Prelude.{
  Bool, true, false, ◌&&◌, ◌||◌, List, [], ◌∷◌, ◌++◌, ltb, ◌==◌, if◌then◌else◌, ℤ,
}

pub data Member : Type 0 where
  text : Text → Member
  number : ℤ → Member

-- lexicographic by code points, as `sort_keys` compares
abbrev pub text_le : Text → Text → Bool
text_le [] t = true
text_le (c ∷ s) [] = false
text_le (c ∷ s) (d ∷ t) = ltb c d || c == d && text_le s t

abbrev pub insert : Text × Member → List (Text × Member) → List (Text × Member)
insert (k, m) [] = (k, m) ∷ []
insert (k, m) ((j, n) ∷ members) =
    if text_le k j then (k, m) ∷ (j, n) ∷ members else (j, n) ∷ insert (k, m) members

abbrev pub sort : List (Text × Member) → List (Text × Member)
sort [] = []
sort (member ∷ members) = insert member (sort members)

abbrev pub member_text : Bool → Member → Text
member_text ensure_ascii (text t) = quoted ensure_ascii t
member_text ensure_ascii (number z) = int_text z

abbrev pub members_text : Bool → List (Text × Member) → Text
members_text ensure_ascii [] = []
members_text ensure_ascii ((k, m) ∷ []) =
    quoted ensure_ascii k ++ (b':' ∷ member_text ensure_ascii m)
members_text ensure_ascii ((k, m) ∷ member ∷ members) =
    quoted ensure_ascii k
    ++ (b':'
        ∷ (member_text ensure_ascii m ++ (b',' ∷ members_text ensure_ascii (member ∷ members))))

abbrev pub object_text : Bool → List (Text × Member) → Text
object_text ensure_ascii members = b'{' ∷ (members_text ensure_ascii members ++ b'}' ∷ [])

unfoldable pub dumps : Bool → List (Text × Member) → Text
dumps ensure_ascii members = object_text ensure_ascii (sort members)

abbrev pub member_value : Member → Value
member_value (text t) = str t
member_value (number z) = int z

abbrev pub fields_of : List (Text × Member) → Fields
fields_of [] = end
fields_of ((k, m) ∷ members) = field k (member_value m) (fields_of members)
