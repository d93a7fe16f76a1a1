-- ===== src/Handshake/Framing.antt =====
-- `_encode_field` and the joins of src/cyphersyntax/handshake.py: what framed fields determine.
use cypher_syntax.Py.Result.{ok, bind-eq-ok, ok-injective}
use cypher_syntax.Py.Value.{Bytes}
use cypher_syntax.Py.Bytes.{to_bytes, big_endian, prefixed_cancel, to_bytes-eq-ok, to_bytes_fits}
use cypher_syntax.Handshake.Fields.{encode_field, encode_fields}
use mathlib.Core.Path.{ap₂}
use cypher_syntax.Prelude.{
  ◌^◌, ◌<◌, ◌≡◌, refl, sym, ap, ◌∙◌, List, [], ◌∷◌, ◌++◌, arith, length, All,
}

pub encode_field-eq-ok :
    (x : Bytes) {bs : Bytes}
    → encode_field x ≡ ok bs
    → (length x < 256 ^ 4) × (bs ≡ big_endian 4 (length x) ++ x)
unfolding encode_field
encode_field-eq-ok x h =
    let (prefix, p, q) = bind-eq-ok (to_bytes (length x) 4) (λ b. ok (b ++ x)) h in
    let (fits, e) = to_bytes-eq-ok (length x) 4 p in (fits, cc)

encode_field_cancel :
    (x y : Bytes) {p q u v : Bytes}
    → encode_field x ≡ ok p
    → encode_field y ≡ ok q
    → p ++ u ≡ q ++ v
    → (x ≡ y) × (u ≡ v)
encode_field_cancel x y {p} {q} {u} {v} hp hq e =
    let (fits_x, ex) = encode_field-eq-ok x hp in
    let (fits_y, ey) = encode_field-eq-ok y hq in
    prefixed_cancel x y fits_x fits_y (rw (ex, ey) at e)

-- Rows of equally many fields are framed alike only if they are equal, field by field.
pub encode_fields-injective :
    (xs ys : List Bytes) (bs : Bytes)
    → length xs ≡ length ys
    → encode_fields xs ≡ ok bs
    → encode_fields ys ≡ ok bs
    → xs ≡ ys
unfolding encode_fields
encode_fields-injective [] [] bs l h k = refl
encode_fields-injective [] (y ∷ ys) bs l h k = absurd (omega arith)
encode_fields-injective (x ∷ xs) [] bs l h k = absurd (omega arith)
encode_fields-injective (x ∷ xs) (y ∷ ys) bs l h k =
    let (p, hp, h1) = bind-eq-ok (encode_field x) _ h in
    let (u, hu, h2) = bind-eq-ok (encode_fields xs) _ h1 in
    let (q, kq, k1) = bind-eq-ok (encode_field y) _ k in
    let (v, kv, k2) = bind-eq-ok (encode_fields ys) _ k1 in
    let (heads, tails) =
      encode_field_cancel x y {p = p} {q = q} {u = u} {v = v} hp kq (ok-injective (h2 ∙ sym k2)) in
    ap₂ ◌∷◌ heads (encode_fields-injective xs ys v (omega arith) (hu ∙ ap ok tails) kv)

-- Fields of less than 2^32 bytes can be framed.
pub encode_fields_fits :
    (xs : List Bytes) → All (λ x. length x < 256 ^ 4) xs → (bs : Bytes) × (encode_fields xs ≡ ok bs)
unfolding encode_fields encode_field
encode_fields_fits [] h = ([], refl)
encode_fields_fits (x ∷ xs) (h, hs) =
    let (rest, e) = encode_fields_fits xs hs in
    ((big_endian 4 (length x) ++ x) ++ rest, rw (to_bytes_fits (length x) 4 h, e))
