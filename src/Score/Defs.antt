-- ===== src/Score/Defs.antt =====
-- score.hpp. The payload is its 16 bytes as one number, the first byte lowest; `memcpy` of the first n
-- bytes is the remainder by 256^n. Floating-point numbers are the environment: what the program does with
-- them is to compare them and to turn numbers into long doubles.
use gempba.Base.{ℕ, ◌-◌, ◌%◌, ltb, if◌then◌else◌, Bool, true, false, ◌&&◌, ◌||◌, Option, none, some}
use gempba.Base.Int.{ℤ, pos, negsuc, ltb_ℤ}

pub data ScoreType : Type 0 where
  i32 u_i32 i64 u_i64 f32 f64 f128 : ScoreType

pub record Score : Type 0 where
  pub kind : ScoreType
  pub payload : ℕ

-- std::partial_ordering
pub data PartialOrdering : Type 0 where
  less equivalent greater unordered : PartialOrdering

pub record Floats : Type 1 where
  pub LongDouble : Type 0
  pub of_int : ℤ → LongDouble
  pub of_f32 : ℕ → LongDouble
  pub of_f64 : ℕ → LongDouble
  pub of_f128 : ℕ → LongDouble
  -- LDBL_MIN and LDBL_MAX
  pub ldbl_min : ℕ
  pub ldbl_max : ℕ
  pub compare_ld : LongDouble → LongDouble → PartialOrdering

abbrev pub m32 : ℕ
m32 = 4294967296

abbrev pub m64 : ℕ
m64 = 18446744073709551616

abbrev pub m128 : ℕ
m128 = 340282366920938463463374607431768211456

-- The number that 4 or 8 bytes stand for, in two's complement.
abbrev pub signed32 : ℕ → ℤ
signed32 b = if ltb b 2147483648 then pos b else negsuc (4294967295 - b)

abbrev pub signed64 : ℕ → ℤ
signed64 b = if ltb b 9223372036854775808 then pos b else negsuc (18446744073709551615 - b)

-- Where the kind is a floating-point type there is no integer.
unfoldable pub int_value : Score → Option ℤ
int_value s = elim s.kind [
  | i32 ↦ some (signed32 (s.payload % m32))
  | u_i32 ↦ some (pos (s.payload % m32))
  | i64 ↦ some (signed64 (s.payload % m64))
  | u_i64 ↦ some (pos (s.payload % m64))
  | _ ↦ none
]

-- `sizeof` of the type of a kind, as the modulus of its bytes
abbrev pub modulus : ScoreType → ℕ
modulus i32 = m32
modulus u_i32 = m32
modulus f32 = m32
modulus i64 = m64
modulus u_i64 = m64
modulus f64 = m64
modulus f128 = m128

abbrev pub same_kind : ScoreType → ScoreType → Bool
same_kind i32 i32 = true
same_kind u_i32 u_i32 = true
same_kind i64 i64 = true
same_kind u_i64 u_i64 = true
same_kind f32 f32 = true
same_kind f64 f64 = true
same_kind f128 f128 = true
same_kind _ _ = false

-- `make` of a value of the type of `k`, whose bytes are `bits`: they are copied, and the rest is cleared.
unfoldable pub make : ScoreType → ℕ → Score
make k bits = record { kind = k; payload = bits % modulus k }

-- The bytes of the value that is read; `none` is the exception "score: wrong target type".
unfoldable pub get : ScoreType → Score → Option ℕ
get k s = if same_kind s.kind k then some (s.payload % modulus k) else none

-- false, and an output that is not written, are `none`
unfoldable pub try_get : ScoreType → Score → Option ℕ
try_get k s = if same_kind s.kind k then some (s.payload % modulus k) else none

-- The int64_t is its bits; `none` is `abort`.
unfoldable pub to_raw : Score → Option ℕ
to_raw s = elim s.kind [
  | i32 ↦ some (s.payload % m32)
  | u_i32 ↦ some (s.payload % m32)
  | f32 ↦ some (s.payload % m32)
  | i64 ↦ some (s.payload % m64)
  | u_i64 ↦ some (s.payload % m64)
  | f64 ↦ some (s.payload % m64)
  | f128 ↦ none
]

unfoldable pub from_raw : ScoreType → ℕ → Option Score
from_raw k raw = elim k [
  | i32 ↦ some (record { kind = i32; payload = raw % m32 })
  | u_i32 ↦ some (record { kind = u_i32; payload = raw % m32 })
  | f32 ↦ some (record { kind = f32; payload = raw % m32 })
  | i64 ↦ some (record { kind = i64; payload = raw % m64 })
  | u_i64 ↦ some (record { kind = u_i64; payload = raw % m64 })
  | f64 ↦ some (record { kind = f64; payload = raw % m64 })
  | f128 ↦ none
]

abbrev pub compare_ℤ : ℤ → ℤ → PartialOrdering
compare_ℤ a b = if ltb_ℤ a b then less else if ltb_ℤ b a then greater else equivalent

module _ (fl : Floats) where
  unfoldable pub to_long_double : Score → fl.LongDouble
  to_long_double s = elim s.kind [
    | i32 ↦ fl.of_int (signed32 (s.payload % m32))
    | u_i32 ↦ fl.of_int (pos (s.payload % m32))
    | i64 ↦ fl.of_int (signed64 (s.payload % m64))
    | u_i64 ↦ fl.of_int (pos (s.payload % m64))
    | f32 ↦ fl.of_f32 (s.payload % m32)
    | f64 ↦ fl.of_f64 (s.payload % m64)
    | f128 ↦ fl.of_f128 s.payload
  ]

  -- `<=>`. The comparison of two floats or doubles is that of the long doubles, which hold them exactly.
  unfoldable pub compare_score : Score → Score → PartialOrdering
  unfolding to_long_double
  compare_score s t =
      let as_floats = fl.compare_ld (to_long_double s) (to_long_double t) in
      if same_kind s.kind t.kind
      then elim s.kind [
        | i32 ↦ compare_ℤ (signed32 (s.payload % m32)) (signed32 (t.payload % m32))
        | u_i32 ↦ compare_ℤ (pos (s.payload % m32)) (pos (t.payload % m32))
        | i64 ↦ compare_ℤ (signed64 (s.payload % m64)) (signed64 (t.payload % m64))
        | u_i64 ↦ compare_ℤ (pos (s.payload % m64)) (pos (t.payload % m64))
        | _ ↦ as_floats
      ]
      else as_floats

abbrev pub is_less : PartialOrdering → Bool
is_less less = true
is_less _ = false

abbrev pub is_greater : PartialOrdering → Bool
is_greater greater = true
is_greater _ = false

pub data Goal : Type 0 where
  maximise minimise : Goal

abbrev pub is_maximise : Goal → Bool
is_maximise maximise = true
is_maximise minimise = false

abbrev pub is_minimise : Goal → Bool
is_minimise maximise = false
is_minimise minimise = true

-- `should_update` of both schedulers; `should_update_result` of the node manager with its own score
unfoldable pub should_update : Floats → Goal → Score → Score → Bool
should_update fl goal old new =
    (is_maximise goal && is_greater (compare_score fl new old))
    || (is_minimise goal && is_less (compare_score fl new old))

abbrev pub should_update_global : Floats → Goal → Score → Score → Bool
should_update_global fl goal global_score local_score =
    should_update fl goal global_score local_score

abbrev pub should_update_local : Floats → Goal → Score → Score → Bool
should_update_local fl goal global_score local_score =
    should_update fl goal local_score global_score

abbrev pub should_broadcast_global : Floats → Goal → Score → Score → Bool
should_broadcast_global fl goal old new = should_update fl goal old new

abbrev pick : Goal → ℕ → ℕ → ℕ
pick maximise low high = low
pick minimise low high = high

-- `utils::get_default_score`, where a long has 64 bits; `none` is the exception "Invalid score type". The
-- numbers are the bytes of INT_MIN and INT_MAX, LONG_MIN and LONG_MAX, FLT_MIN and FLT_MAX, DBL_MIN and
-- DBL_MAX.
unfoldable pub get_default_score : Floats → Goal → ScoreType → Option Score
unfolding make
get_default_score fl g k = elim k [
  | i32 ↦ some (make i32 (pick g 2147483648 2147483647))
  | i64 ↦ some (make i64 (pick g 9223372036854775808 9223372036854775807))
  | f32 ↦ some (make f32 (pick g 8388608 2139095039))
  | f64 ↦ some (make f64 (pick g 4503599627370496 9218868437227405311))
  | f128 ↦ some (make f128 (pick g fl.ldbl_min fl.ldbl_max))
  | u_i32 ↦ none
  | u_i64 ↦ none
]
