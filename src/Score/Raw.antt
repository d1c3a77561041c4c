-- ===== src/Score/Raw.antt =====
-- The transport of a score as raw bits, and reading it back as its own type.
use gempba.Base.{ℕ, ◌<◌, ◌≡◌, refl, if◌then◌else◌, none, some, ◌⊎◌, inl, inr, arith}
use gempba.Score.Defs.{
  ScoreType, i32, u_i32, i64, u_i64, f32, f64, f128, Score, modulus, m64, same_kind, make, get,
  try_get, to_raw, from_raw,
}

-- The bytes behind the value are clear, as `make` and `from_raw` leave them.
abbrev pub Clean : Score → Type 0
Clean s = s.payload < modulus s.kind

abbrev Travels : ScoreType → ℕ → Type 0
Travels k p =
    ((raw : ℕ) × (to_raw (record { kind = k; payload = p }) ≡ some raw)
      × (raw < m64)
      × (from_raw k raw ≡ some (record { kind = k; payload = p })))
    ⊎ ((k ≡ f128) × (to_raw (record { kind = k; payload = p }) ≡ none) × (from_raw k p ≡ none))

travels : (k : ScoreType) (p : ℕ) → p < modulus k → Travels k p
unfolding to_raw from_raw
travels i32 p h = inl (p, ground arith, ground arith, ground arith)
travels u_i32 p h = inl (p, ground arith, ground arith, ground arith)
travels f32 p h = inl (p, ground arith, ground arith, ground arith)
travels i64 p h = inl (p, ground arith, ground arith, ground arith)
travels u_i64 p h = inl (p, ground arith, ground arith, ground arith)
travels f64 p h = inl (p, ground arith, ground arith, ground arith)
travels f128 p h = inr (refl, refl, refl)

-- A clean score of any type but F128 comes back from its raw bits, which are below 2^64, with its type;
-- for F128 both ways abort.
pub to_raw-from_raw :
    (s : Score)
    → Clean s
    → ((raw : ℕ) × (to_raw s ≡ some raw) × (raw < m64) × (from_raw s.kind raw ≡ some s))
      ⊎ ((s.kind ≡ f128) × (to_raw s ≡ none) × (from_raw s.kind s.payload ≡ none))
to_raw-from_raw s clean = travels s.kind s.payload clean

-- A score made of a value gives the value back to get and to try_get if they ask for its type; for any
-- other type get throws and try_get leaves its output alone. The score is clean.
get-make :
    (k j : ScoreType) (bits : ℕ)
    → bits < modulus k
    → (get j (make k bits) ≡ (if same_kind k j then some bits else none))
      × (try_get j (make k bits) ≡ get j (make k bits))
      × Clean (make k bits)
unfolding get try_get make
get-make i32 i32 bits h = ground arith
get-make u_i32 u_i32 bits h = ground arith
get-make i64 i64 bits h = ground arith
get-make u_i64 u_i64 bits h = ground arith
get-make f32 f32 bits h = ground arith
get-make f64 f64 bits h = ground arith
get-make f128 f128 bits h = ground arith
get-make i32 _ bits h = ground arith
get-make u_i32 _ bits h = ground arith
get-make i64 _ bits h = ground arith
get-make u_i64 _ bits h = ground arith
get-make f32 _ bits h = ground arith
get-make f64 _ bits h = ground arith
get-make f128 _ bits h = ground arith
