-- ===== src/Topology/Bytes.antt =====
-- topology_builder.cpp: numbers and texts as bytes, low byte first, and the reader with its latch. The reader
-- holds what is left of the data.
use gempba.Base.{
  ℕ, zero, suc, ◌+◌, ◌*◌, ◌/◌, ◌%◌, ◌<◌, ◌≡◌, refl, ap, ltb, leb, if◌then◌else◌, Bool, true, false,
  List, [], ◌∷◌, ◌++◌, length, length-append, take, drop, arith,
}
use mathlib.Core.List.{append_assoc}

pub record ByteReader : Type 0 where
  pub rest : List ℕ
  pub ok : Bool

unfoldable pub bytes_of : ℕ → ℕ → List ℕ
bytes_of zero v = []
bytes_of (suc k) v = v % 256 ∷ bytes_of k (v / 256)

unfoldable pub value_of : List ℕ → ℕ
value_of [] = 0
value_of (b ∷ bs) = b + 256 * value_of bs

-- 2 ^ (8 * k)
abbrev pub bound : ℕ → ℕ
bound zero = 1
bound (suc k) = 256 * bound k

unfoldable pub put_uint : ℕ → List ℕ → ℕ → List ℕ
put_uint k buf v = buf ++ bytes_of k v

-- `take` of the reader
abbrev pub has : ByteReader → ℕ → Bool
has r n = leb n (length r.rest)

-- u8, u16, u32 and u64, by the number of bytes
unfoldable pub uint : ℕ → ByteReader → ByteReader × ℕ
uint k r =
    if has r k
    then (record r { rest = drop k r.rest }, value_of (take k r.rest))
    else (record r { ok = false }, 0)

abbrev pub min : ℕ → ℕ → ℕ
min a b = if ltb b a then b else a

unfoldable pub put_str : List ℕ → List ℕ → List ℕ
unfolding put_uint
put_str buf text = let len = min (length text) 65535 in put_uint 2 buf len ++ take len text

unfoldable pub str : ByteReader → ByteReader × List ℕ
str r =
    let (s, len) = uint 2 r in
    if has s len
    then (record s { rest = drop len s.rest }, take len s.rest)
    else (record s { ok = false }, [])

pub length-bytes_of : (k v : ℕ) → length (bytes_of k v) ≡ k
unfolding bytes_of
length-bytes_of zero v = refl
length-bytes_of (suc k) v = ap suc (length-bytes_of k (v / 256))

value_of-bytes_of : (k v : ℕ) → v < bound k → value_of (bytes_of k v) ≡ v
unfolding bytes_of value_of
value_of-bytes_of zero v h = omega arith
value_of-bytes_of (suc k) v h = omega (arith, value_of-bytes_of k (v / 256) (omega arith))

pub take-append : (xs ys : List ℕ) → take (length xs) (xs ++ ys) ≡ xs
take-append [] ys = refl
take-append (x ∷ xs) ys = ap (◌∷◌ x) (take-append xs ys)

pub drop-append : (xs ys : List ℕ) → drop (length xs) (xs ++ ys) ≡ ys
drop-append [] ys = refl
drop-append (x ∷ xs) ys = drop-append xs ys

take_self : (xs : List ℕ) → take (length xs) xs ≡ xs
take_self [] = refl
take_self (x ∷ xs) = ap (◌∷◌ x) (take_self xs)

take-bytes_of : (k v : ℕ) (after : List ℕ) → take k (bytes_of k v ++ after) ≡ bytes_of k v
unfolding bytes_of
take-bytes_of zero v after = refl
take-bytes_of (suc k) v after = ap (◌∷◌ (v % 256)) (take-bytes_of k (v / 256) after)

drop-bytes_of : (k v : ℕ) (after : List ℕ) → drop k (bytes_of k v ++ after) ≡ after
unfolding bytes_of
drop-bytes_of zero v after = refl
drop-bytes_of (suc k) v after = drop-bytes_of k (v / 256) after

has-bytes_of : (k v : ℕ) (after : List ℕ) → leb k (length (bytes_of k v ++ after)) ≡ true
has-bytes_of k v after = ground (arith, length-append (bytes_of k v) after, length-bytes_of k v)

has-append : (xs ys : List ℕ) → leb (length xs) (length (xs ++ ys)) ≡ true
has-append xs ys = ground (arith, length-append xs ys)

abbrev pub reading : List ℕ → ByteReader
reading bs = record { rest = bs; ok = true }

pub uint-bytes_of :
    (k v : ℕ) (after : List ℕ)
    → v < bound k
    → uint k (reading (bytes_of k v ++ after)) ≡ (reading after, v)
unfolding uint
uint-bytes_of k v after h =
    rw
      (
        has-bytes_of k v after,
        take-bytes_of k v after,
        drop-bytes_of k v after,
        value_of-bytes_of k v h,
      )
      refl

-- The bytes of a text.
unfoldable pub str_bytes : List ℕ → List ℕ
str_bytes text = bytes_of 2 (length text) ++ text

pub put_str-bytes :
    (buf text : List ℕ) → length text < 65536 → put_str buf text ≡ buf ++ str_bytes text
unfolding put_str str_bytes put_uint
put_str-bytes buf text h =
    let e : min (length text) 65535 ≡ length text = ground arith in
    rw (e, take_self text) (append_assoc buf (bytes_of 2 (length text)) text)

pub str-bytes :
    (text after : List ℕ)
    → length text < 65536
    → str (reading (str_bytes text ++ after)) ≡ (reading after, text)
unfolding str str_bytes
str-bytes text after h =
    let e = uint-bytes_of 2 (length text) (text ++ after) (omega arith) in
    rw
      (
        append_assoc (bytes_of 2 (length text)) text after,
        e,
        has-append text after,
        drop-append text after,
        take-append text after,
      )
      refl
