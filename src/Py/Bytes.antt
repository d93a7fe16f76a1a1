-- ===== src/Py/Bytes.antt =====
-- `int.to_bytes(width, "big")`, and what the concatenation of byte strings determines.
use native.Mathlib.Nat.{pow-suc}
use cypher_syntax.Py.Result.{Result, ok, err, overflow_error}
use cypher_syntax.Py.Value.{Bytes}
use cypher_syntax.Prelude.{
  ℕ, zero, suc, ◌+◌, ◌*◌, ◌/◌, ◌%◌, ◌^◌, ◌<◌, ◌≡◌, refl, sym, ap, ◌∙◌, [], ◌∷◌, ◌++◌, append_assoc,
  arith, ltb, if◌then◌else◌, length, length-append,
}

-- the lowest `width` bytes of a number, the highest of them first
pub big_endian : ℕ → ℕ → Bytes
big_endian zero n = []
big_endian (suc width) n = big_endian width (n / 256) ++ (n % 256) ∷ []

unfoldable pub to_bytes : ℕ → ℕ → Result Bytes
unfolding big_endian
to_bytes n width = if ltb n (256 ^ width) then ok (big_endian width n) else err overflow_error

-- the number that bytes spell behind `n`
from_big_endian : ℕ → Bytes → ℕ
from_big_endian n [] = n
from_big_endian n (b ∷ bs) = from_big_endian (n * 256 + b) bs

from_big_endian-append :
    (n : ℕ) (xs ys : Bytes)
    → from_big_endian n (xs ++ ys) ≡ from_big_endian (from_big_endian n xs) ys
unfolding from_big_endian
from_big_endian-append n [] ys = refl
from_big_endian-append n (x ∷ xs) ys = from_big_endian-append (n * 256 + x) xs ys

from-big_endian : (width n : ℕ) → n < 256 ^ width → from_big_endian 0 (big_endian width n) ≡ n
unfolding big_endian from_big_endian
from-big_endian zero n h = omega arith
from-big_endian (suc width) n h =
    let fits : n / 256 < 256 ^ width = omega (arith, pow-suc 256 width) in
    rw (from_big_endian-append 0 (big_endian width (n / 256)), from-big_endian width (n / 256) fits)
      (omega arith)

pub big_endian-injective :
    (width n m : ℕ)
    → n < 256 ^ width
    → m < 256 ^ width
    → big_endian width n ≡ big_endian width m
    → n ≡ m
big_endian-injective width n m hn hm e =
    cc (from-big_endian width n hn, from-big_endian width m hm, ap (from_big_endian 0) e)

pub length-big_endian : (width n : ℕ) → length (big_endian width n) ≡ width
unfolding big_endian
length-big_endian zero n = refl
length-big_endian (suc width) n = omega (
  arith,
  length-append (big_endian width (n / 256)) ((n % 256) ∷ []),
  length-big_endian width (n / 256),
)

-- Concatenations are equal only part by part, if the first parts have one length.
pub append_cancel :
    (xs ys : Bytes) {us vs : Bytes}
    → length xs ≡ length ys
    → xs ++ us ≡ ys ++ vs
    → (xs ≡ ys) × (us ≡ vs)
append_cancel [] [] l e = (refl, e)
append_cancel [] (y ∷ ys) l e = absurd (omega arith)
append_cancel (x ∷ xs) [] l e = absurd (omega arith)
append_cancel (x ∷ xs) (y ∷ ys) {us} {vs} l e =
    let (p, q) = append_cancel xs ys {us = us} {vs = vs} (omega arith) (cc) in (cc, q)

-- A value behind its length is determined by the text that begins with them, and so is the rest.
pub prefixed_cancel :
    (x y : Bytes) {u v : Bytes}
    → length x < 256 ^ 4
    → length y < 256 ^ 4
    → (big_endian 4 (length x) ++ x) ++ u ≡ (big_endian 4 (length y) ++ y) ++ v
    → (x ≡ y) × (u ≡ v)
prefixed_cancel x y {u} {v} hx hy e =
    let whole =
      sym (append_assoc (big_endian 4 (length x)) x u)
      ∙ e
      ∙ append_assoc (big_endian 4 (length y)) y v in
    let (heads, tails) =
      append_cancel (big_endian 4 (length x)) (big_endian 4 (length y)) {us = x ++ u} {vs = y ++ v}
        (omega (arith, length-big_endian 4 (length x), length-big_endian 4 (length y))) whole in
    append_cancel x y {us = u} {vs = v} (big_endian-injective 4 (length x) (length y) hx hy heads)
      tails

pub to_bytes-eq-ok :
    (n width : ℕ) {bs : Bytes}
    → to_bytes n width ≡ ok bs
    → (n < 256 ^ width) × (bs ≡ big_endian width n)
unfolding to_bytes
to_bytes-eq-ok n width h = ground arith

pub to_bytes_fits : (n width : ℕ) → n < 256 ^ width → to_bytes n width ≡ ok (big_endian width n)
unfolding to_bytes
to_bytes_fits n width h = ground arith
