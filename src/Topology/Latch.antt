-- ===== src/Topology/Latch.antt =====
-- Reads of data that end too early: the reader's latch closes, and stays closed.
use gempba.Base.{
  ℕ, zero, suc, ◌+◌, ◌<◌, ◌≡◌, refl, ap, leb, ◌⊎◌, inl, inr, if◌then◌else◌, false, List, [], ◌∷◌,
  ◌++◌, length, length-append, take, drop, All, arith,
}
use gempba.Topology.Bytes.{
  ByteReader, bytes_of, bound, uint, str, str_bytes, reading, uint-bytes_of, length-bytes_of,
}
use gempba.Topology.Codec.{read_cpu_ids}
use gempba.Topology.RoundTrip.{cpu_bytes}

abbrev pub Latches : (ByteReader → ByteReader) → Type 0
Latches f = (r : ByteReader) → r.ok ≡ false → (f r).ok ≡ false

abbrev pub Refuses : (ByteReader → ByteReader) → List ℕ → Type 0
Refuses f bs = (m : ℕ) → m < length bs → (f (reading (take m bs))).ok ≡ false

length-take : (m : ℕ) (xs : List ℕ) → m < length xs → length (take m xs) ≡ m
length-take zero xs h = refl
length-take (suc m) [] h = absurd (omega arith)
length-take (suc m) (x ∷ xs) h = ap suc (length-take m xs (omega arith))

take_split :
    (m : ℕ) (xs ys : List ℕ)
    → ((m < length xs) × (take m (xs ++ ys) ≡ take m xs))
      ⊎ ((k : ℕ) × (m ≡ length xs + k) × (take m (xs ++ ys) ≡ xs ++ take k ys))
take_split m [] ys = inr (m, omega arith, refl)
take_split zero (x ∷ xs) ys = inl (omega arith, refl)
take_split (suc m) (x ∷ xs) ys = elim (take_split m xs ys) [
  | inl (h, e) ↦ inl (omega arith, ap (◌∷◌ x) e)
  | inr (k, h, e) ↦ inr (k, omega arith, ap (◌∷◌ x) e)
]

-- One read after another: missing bytes close the latch in the first or in the second.
pub Refuses-then :
    {V : Type 0} (f : ByteReader → ByteReader × V) (g : V → ByteReader → ByteReader)
    (xs ys : List ℕ) (v : V)
    → ((after : List ℕ) → f (reading (xs ++ after)) ≡ (reading after, v))
    → Refuses (λ r. (f r).0) xs
    → ((u : V) → Latches (g u))
    → Refuses (g v) ys
    → Refuses (λ r. g (f r).1 (f r).0) (xs ++ ys)
Refuses-then f g xs ys v reads cut latches rest m h = elim (take_split m xs ys) [
  | inl (short, e) ↦
      rw e (latches (f (reading (take m xs))).1 (f (reading (take m xs))).0 (cut m short))
  | inr (k, long, e) ↦ rw (e, reads (take k ys)) (rest k (omega (arith, length-append xs ys)))
]

pub uint-Latches : (k : ℕ) → Latches (λ r. (uint k r).0)
unfolding uint
uint-Latches k r h = ground arith

pub str-Latches : Latches (λ r. (str r).0)
unfolding str
str-Latches r h = ground (arith, uint-Latches 2 r)

pub read_cpu_ids-Latches : (n : ℕ) → Latches (λ r. (read_cpu_ids n r).0)
unfolding read_cpu_ids
read_cpu_ids-Latches zero r h = h
read_cpu_ids-Latches (suc n) r h = ground arith

pub uint-Refuses : (k v : ℕ) → Refuses (λ r. (uint k r).0) (bytes_of k v)
unfolding uint
uint-Refuses k v m h = ground (arith, length-take m (bytes_of k v) h, length-bytes_of k v)

abbrev text_of : ℕ → ByteReader → ByteReader
text_of len s =
    let out : ByteReader × List ℕ =
      if leb len (length s.rest)
      then (record s { rest = drop len s.rest }, take len s.rest)
      else (record s { ok = false }, []) in
    out.0

text_of-Refuses : (text : List ℕ) → Refuses (text_of (length text)) text
text_of-Refuses text m h = ground (arith, length-take m text h)

pub str-Refuses : (text : List ℕ) → length text < 65536 → Refuses (λ r. (str r).0) (str_bytes text)
unfolding str str_bytes
str-Refuses text h =
    Refuses-then (uint 2) text_of (bytes_of 2 (length text)) text (length text)
      (λ after. uint-bytes_of 2 (length text) after (omega arith)) (uint-Refuses 2 (length text))
      (λ len s e. ground arith) (text_of-Refuses text)

pub read_cpu_ids-Refuses :
    (cs : List ℕ)
    → All (λ c. c < bound 4) cs
    → Refuses (λ r. (read_cpu_ids (length cs) r).0) (cpu_bytes cs)
unfolding read_cpu_ids
read_cpu_ids-Refuses [] h m e = elim e [ ]
read_cpu_ids-Refuses (c ∷ cs) h m e =
    Refuses-then (uint 4) (λ v r. (read_cpu_ids (length cs) r).0) (bytes_of 4 c) (cpu_bytes cs) c
      (λ after. uint-bytes_of 4 c after h.0) (uint-Refuses 4 c)
      (λ v. read_cpu_ids-Latches (length cs)) (read_cpu_ids-Refuses cs h.1) m e
