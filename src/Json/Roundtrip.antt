-- ===== src/Json/Roundtrip.antt =====
-- That `loads` reads back an object that `dumps` wrote.
use cypher_syntax.Py.Value.{Value, Fields, int, str, object, end, field, Text}
use cypher_syntax.Py.Text.{all_of, decimal}
use cypher_syntax.Py.Utf8.{is_scalar}
use cypher_syntax.Json.Strings.{quoted}
use cypher_syntax.Json.Scan.{scan-escape}
use cypher_syntax.Json.Numbers.{
  int_text, read_number, read_number-decimal, is_digit, Stops, decimal-first, signed,
}
use cypher_syntax.Json.Parse.{
  unique, expect, negative_number, ◌>>=◌, read_value, read_members, read_key, loads, skip_blanks,
  strip_prefix, distinct_keys, lead_of, Lead,
}
use cypher_syntax.Json.Dump.{
  Member, text, number, member_text, members_text, object_text, member_value, fields_of,
}
use cypher_syntax.Prelude.{
  ℕ, zero, suc, ◌≤◌, ◌<◌, ◌≡◌, refl, ap, ◌∙◌, Bool, true, false, Option, none, some, List, [], ◌∷◌,
  ◌++◌, append_assoc, arith, if◌then◌else◌, pos, negsuc, length, length-append,
}

-- no surrogates
abbrev pub IsClean : Member → Type 0
IsClean (text t) = all_of is_scalar t ≡ true
IsClean (number z) = Unit

abbrev pub AreClean : List (Text × Member) → Type 0
AreClean [] = Unit
AreClean ((k, m) ∷ members) = (all_of is_scalar k ≡ true) × IsClean m × AreClean members

negative_number-some :
    (constants : Bool) (t : Text) (p : Value × Text)
    → read_number true t ≡ some p
    → negative_number constants t ≡ some p
negative_number-some constants t p h = ground arith

lead_of_digit : (d : ℕ) → is_digit d ≡ true → lead_of d ≡ Lead.digit
lead_of_digit d h = ground arith

read_value-digit :
    (constants : Bool) (fuel d : ℕ) (t : Text)
    → is_digit d ≡ true
    → read_value constants (suc fuel) (d ∷ t) ≡ read_number false (d ∷ t)
unfolding read_value
read_value-digit constants fuel d t h = rw (lead_of_digit d h, read_value) refl

read_value-from_digit :
    (constants : Bool) (fuel d : ℕ) (t ds rest : Text)
    → t ≡ d ∷ ds
    → is_digit d ≡ true
    → read_value constants (suc fuel) (t ++ rest) ≡ read_number false (t ++ rest)
read_value-from_digit constants fuel d t ds rest e h =
    rw e (read_value-digit constants fuel d (ds ++ rest) h)

pub read_value-decimal :
    (constants : Bool) (fuel n : ℕ) (rest : Text)
    → Stops rest
    → read_value constants (suc fuel) (decimal n ++ rest) ≡ some (int (pos n), rest)
read_value-decimal constants fuel n rest s =
    let (d, ds, e, h) = decimal-first n in
    read_value-from_digit constants fuel d (decimal n) ds rest e h
    ∙ read_number-decimal false n rest s

signed-suc : (n : ℕ) → signed true (suc n) ≡ negsuc n
signed-suc n = ground arith

read_number-negative :
    (n : ℕ) (rest : Text)
    → Stops rest
    → read_number true (decimal (suc n) ++ rest) ≡ some (int (negsuc n), rest)
read_number-negative n rest s =
    read_number-decimal true (suc n) rest s ∙ ap (λ z. some (int z, rest)) (signed-suc n)

pub read_value-negative :
    (constants : Bool) (fuel n : ℕ) (rest : Text)
    → Stops rest
    → read_value constants (suc fuel) (b'-' ∷ (decimal (suc n) ++ rest))
      ≡ some (int (negsuc n), rest)
unfolding read_value
read_value-negative constants fuel n rest s =
    negative_number-some constants (decimal (suc n) ++ rest) (int (negsuc n), rest)
      (read_number-negative n rest s)

pub read_value-quoted :
    (constants b : Bool) (fuel : ℕ) (t rest : Text)
    → all_of is_scalar t ≡ true
    → read_value constants (suc fuel) (quoted b t ++ rest) ≡ some (str t, rest)
unfolding read_value
read_value-quoted constants b fuel t rest clean = rw (append_assoc, scan-escape b t rest clean) refl

read_value-member :
    (constants b : Bool) (fuel : ℕ) (m : Member) (rest : Text)
    → IsClean m
    → Stops rest
    → read_value constants (suc fuel) (member_text b m ++ rest) ≡ some (member_value m, rest)
read_value-member constants b fuel (text t) rest clean s =
    read_value-quoted constants b fuel t rest clean
read_value-member constants b fuel (number (pos n)) rest clean s =
    unfold int_text in read_value-decimal constants fuel n rest s
read_value-member constants b fuel (number (negsuc n)) rest clean s =
    unfold int_text in read_value-negative constants fuel n rest s

pub read_key-quoted :
    (b : Bool) (k rest : Text)
    → all_of is_scalar k ≡ true
    → read_key (quoted b k ++ (b':' ∷ rest)) ≡ some (k, skip_blanks rest)
unfolding read_key strip_prefix skip_blanks
read_key-quoted b k rest clean = rw (append_assoc, scan-escape b k (b':' ∷ rest) clean) refl

pub skip_blanks-digit :
    (t : Text) (d : ℕ) (ds rest : Text)
    → t ≡ d ∷ ds
    → is_digit d ≡ true
    → skip_blanks (t ++ rest) ≡ t ++ rest
unfolding skip_blanks
skip_blanks-digit t d ds rest e h = rw e (ground arith)

skip_blanks-member :
    (b : Bool) (m : Member) (rest : Text)
    → skip_blanks (member_text b m ++ rest) ≡ member_text b m ++ rest
skip_blanks-member b (text t) rest = unfold skip_blanks in refl
skip_blanks-member b (number (pos n)) rest =
    let (d, ds, e, h) = decimal-first n in
    unfold int_text in skip_blanks-digit (decimal n) d ds rest e h
skip_blanks-member b (number (negsuc n)) rest = unfold int_text skip_blanks in refl

-- the rest of a list of members behind its first one
abbrev behind : Bool → List (Text × Member) → Text → Text
behind b [] rest = b'}' ∷ rest
behind b (member ∷ members) rest = b',' ∷ (members_text b (member ∷ members) ++ (b'}' ∷ rest))

glue_last : (q v s : Text) (c : ℕ) → (q ++ (c ∷ v)) ++ s ≡ q ++ (c ∷ (v ++ s))
glue_last q v s c = append_assoc q (c ∷ v) s

glue_more :
    (q v t s : Text) (c d : ℕ) → (q ++ (c ∷ (v ++ (d ∷ t)))) ++ s ≡ q ++ (c ∷ (v ++ (d ∷ (t ++ s))))
glue_more q v t s c d = rw (append_assoc, append_assoc) refl

members_text-first :
    (b : Bool) (k : Text) (m : Member) (members : List (Text × Member)) (rest : Text)
    → members_text b ((k, m) ∷ members) ++ (b'}' ∷ rest)
      ≡ quoted b k ++ (b':' ∷ (member_text b m ++ behind b members rest))
members_text-first b k m [] rest = glue_last (quoted b k) (member_text b m) (b'}' ∷ rest) b':'
members_text-first b k m (member ∷ members) rest =
    glue_more (quoted b k) (member_text b m) (members_text b (member ∷ members)) (b'}' ∷ rest) b':'
      b','

pub read_members-last :
    (constants : Bool) (fuel : ℕ) (input t k rest : Text) (v : Value)
    → read_key input ≡ some (k, t)
    → read_value constants fuel t ≡ some (v, b'}' ∷ rest)
    → read_members constants (suc fuel) input ≡ some (field k v end, rest)
unfolding read_members skip_blanks
read_members-last constants fuel input t k rest v key value = rw (key, value) refl

pub read_members-more :
    (constants : Bool) (fuel : ℕ) (input t u k rest : Text) (v : Value) (fields : Fields)
    → read_key input ≡ some (k, t)
    → read_value constants fuel t ≡ some (v, b',' ∷ u)
    → read_members constants fuel (skip_blanks u) ≡ some (fields, rest)
    → read_members constants (suc fuel) input ≡ some (field k v fields, rest)
read_members-more constants fuel input t u k rest v fields key value more =
    unfold read_members skip_blanks in
    rw (key, value) (ap (λ o. o >>= λ m. some (field k v m.0, m.1)) more)

behind-Stops :
    (b : Bool) (members : List (Text × Member)) (rest : Text) → Stops (behind b members rest)
behind-Stops b [] rest = ground arith
behind-Stops b (member ∷ members) rest = ground arith

read_key-member :
    (b : Bool) (k : Text) (m : Member) (rest : Text)
    → all_of is_scalar k ≡ true
    → read_key (quoted b k ++ (b':' ∷ (member_text b m ++ rest)))
      ≡ some (k, member_text b m ++ rest)
read_key-member b k m rest clean =
    read_key-quoted b k (member_text b m ++ rest) clean
    ∙ ap (λ t. some (k, t)) (skip_blanks-member b m rest)

skip_blanks-members :
    (b : Bool) (k : Text) (m : Member) (members : List (Text × Member)) (rest : Text)
    → skip_blanks (members_text b ((k, m) ∷ members) ++ (b'}' ∷ rest))
      ≡ members_text b ((k, m) ∷ members) ++ (b'}' ∷ rest)
skip_blanks-members b k m members rest =
    rw (members_text-first b k m members rest) (unfold skip_blanks in refl)

-- Members are read back, up to the brace behind them.
read_members-text :
    (constants b : Bool) (fuel : ℕ) (k : Text) (m : Member) (members : List (Text × Member))
    (rest : Text)
    → AreClean ((k, m) ∷ members)
    → suc (length members) < fuel
    → read_members constants fuel (members_text b ((k, m) ∷ members) ++ (b'}' ∷ rest))
      ≡ some (fields_of ((k, m) ∷ members), rest)
read_members-text constants b zero k m members rest clean bound = absurd (omega arith)
read_members-text constants b (suc zero) k m members rest clean bound = absurd (omega arith)
read_members-text constants b (suc (suc fuel)) k m [] rest (clean_key, clean_value, _) bound =
    ap (read_members constants (suc (suc fuel))) (members_text-first b k m [] rest)
    ∙ read_members-last constants (suc fuel) _ _ k rest (member_value m)
        (read_key-member b k m (b'}' ∷ rest) clean_key)
        (read_value-member constants b fuel m (b'}' ∷ rest) clean_value (behind-Stops b [] rest))
read_members-text constants b (suc (suc fuel)) k m ((j, n) ∷ members) rest
      (clean_key, clean_value, clean) bound =
    let tail = behind b ((j, n) ∷ members) rest in
    ap (read_members constants (suc (suc fuel))) (members_text-first b k m ((j, n) ∷ members) rest)
    ∙ read_members-more constants (suc fuel) _ _ _ k rest (member_value m)
        (fields_of ((j, n) ∷ members)) (read_key-member b k m tail clean_key)
        (read_value-member constants b fuel m tail clean_value
          (behind-Stops b ((j, n) ∷ members) rest))
        (ap (read_members constants (suc fuel)) (skip_blanks-members b j n members rest)
          ∙ read_members-text constants b (suc fuel) j n members rest clean (ground arith))

pub read_value-brace :
    (constants : Bool) (fuel : ℕ) (t rest : Text) (fields : Fields)
    → expect b'}' t ≡ none
    → skip_blanks t ≡ t
    → read_members constants fuel t ≡ some (fields, rest)
    → distinct_keys fields ≡ true
    → read_value constants (suc fuel) (b'{' ∷ t) ≡ some (object fields, rest)
unfolding read_value
read_value-brace constants fuel t rest fields none_closed kept members_read distinct =
    ap
      (λ o. elim o as (λ x. Option (Value × Text)) [
        | some r ↦ some (object end, r)
        | none ↦ read_members constants fuel (skip_blanks t) >>= unique
      ])
      none_closed
    ∙ ap (λ u. read_members constants fuel u >>= unique) kept
    ∙ ap (λ o. o >>= unique) members_read
    ∙ ap (λ d. if d then some (object fields, rest) else none) distinct

members_text-open :
    (b : Bool) (k : Text) (m : Member) (members : List (Text × Member)) (rest : Text)
    → expect b'}' (members_text b ((k, m) ∷ members) ++ (b'}' ∷ rest)) ≡ none
members_text-open b k m members rest =
    rw (members_text-first b k m members rest) (unfold skip_blanks strip_prefix in refl)

length-members_text :
    (b : Bool) (k : Text) (m : Member) (members : List (Text × Member))
    → suc (length members) ≤ length (members_text b ((k, m) ∷ members))
length-members_text b k m [] = ground arith
length-members_text b k m ((j, n) ∷ members) =
    rw (length-append (quoted b k) _, length-append (member_text b m) _)
      (ground (arith, length-members_text b j n members))

pub loads-read :
    (constants : Bool) (t : Text) (fields : Fields)
    → read_value constants (suc (length (b'{' ∷ t))) (b'{' ∷ t) ≡ some (object fields, [])
    → loads constants (b'{' ∷ t) ≡ some (object fields)
loads-read constants t fields h = unfold loads skip_blanks in rw h refl

-- An object is read back.
pub loads-object_text :
    (constants b : Bool) (members : List (Text × Member))
    → AreClean members
    → distinct_keys (fields_of members) ≡ true
    → loads constants (object_text b members) ≡ some (object (fields_of members))
loads-object_text constants b [] clean distinct =
    unfold loads skip_blanks read_value strip_prefix distinct_keys in refl
loads-object_text constants b ((k, m) ∷ members) clean distinct =
    loads-read constants (members_text b ((k, m) ∷ members) ++ b'}' ∷ [])
      (fields_of ((k, m) ∷ members))
      (read_value-brace constants _ _ [] (fields_of ((k, m) ∷ members))
        (members_text-open b k m members []) (skip_blanks-members b k m members [])
        (read_members-text constants b _ k m members [] clean (
          rw (length-append (members_text b ((k, m) ∷ members)) (b'}' ∷ []))
            (ground (arith, length-members_text b k m members))))
        distinct)
