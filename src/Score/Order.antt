-- ===== src/Score/Order.antt =====
-- Which of two scores is better: for scores of integer types, as the numbers say.
use gempba.Base.{
  ℕ, ◌≡◌, ◌≤◌, ◌<◌, refl, subst, ap, sym, Bool, true, false, none, some, ◌⊎◌, inl, inr, arith,
}
use gempba.Base.Int.{ℤ, pos, pos_part, neg_part, ltb_ℤ}
use gempba.Score.Defs.{
  ScoreType, i32, u_i32, i64, u_i64, f32, f64, f128, Score, Floats, Goal, maximise, minimise,
  int_value, compare_score, should_update, compare_ℤ,
}

-- Scores of the integer type `k`.
pub data IsInt : ScoreType → Type 0 where
  is_i32 : IsInt i32
  is_u_i32 : IsInt u_i32
  is_i64 : IsInt i64
  is_u_i64 : IsInt u_i64

abbrev m32 : ℕ
m32 = 4294967296

abbrev m64 : ℕ
m64 = 18446744073709551616

-- The number of a score of an integer type.
unfoldable pub value : Score → ℤ
unfolding int_value
value s = elim (int_value s) [ none ↦ pos 0 | some z ↦ z ]

abbrev pub better : Goal → ℤ → ℤ → Bool
better maximise old new = ltb_ℤ old new
better minimise old new = ltb_ℤ new old

compare_lem :
    (fl : Floats) (k : ScoreType) (p q : ℕ)
    → IsInt k
    → compare_score fl (record { kind = k; payload = p }) (record { kind = k; payload = q })
      ≡ compare_ℤ
          (value (record { kind = k; payload = p }))
          (value (record { kind = k; payload = q }))
unfolding compare_score value
compare_lem fl i32 p q is_i32 = refl
compare_lem fl u_i32 p q is_u_i32 = refl
compare_lem fl i64 p q is_i64 = refl
compare_lem fl u_i64 p q is_u_i64 = refl
compare_lem fl f32 p q h = elim h [ ]
compare_lem fl f64 p q h = elim h [ ]
compare_lem fl f128 p q h = elim h [ ]

decide :
    (fl : Floats) (g : Goal) (old new : Score) (a b : ℤ)
    → compare_score fl new old ≡ compare_ℤ b a
    → should_update fl g old new ≡ better g a b
unfolding should_update
decide fl maximise old new a b e = rw (should_update, e) (ground arith)
decide fl minimise old new a b e = rw (should_update, e) (ground arith)

-- The integers of the four integer types.
abbrev pub In64 : ℤ → Type 0
In64 z = (neg_part z ≤ 9223372036854775808) × (pos_part z < m64)

-- Long doubles that hold these integers exactly, as those with a significand of 64 bits do.
abbrev pub HoldsIntegers : Floats → Type 0
HoldsIntegers fl =
    (a b : ℤ) → In64 a → In64 b → fl.compare_ld (fl.of_int a) (fl.of_int b) ≡ compare_ℤ a b

value-In64 : (k : ScoreType) (p : ℕ) → IsInt k → In64 (value (record { kind = k; payload = p }))
unfolding value
value-In64 i32 p is_i32 = ground arith
value-In64 u_i32 p is_u_i32 = ground arith
value-In64 i64 p is_i64 = ground arith
value-In64 u_i64 p is_u_i64 = ground arith
value-In64 f32 p h = elim h [ ]
value-In64 f64 p h = elim h [ ]
value-In64 f128 p h = elim h [ ]

compare_mixed :
    (fl : Floats) (k l : ScoreType) (p q : ℕ)
    → IsInt k
    → IsInt l
    → HoldsIntegers fl
    → compare_score fl (record { kind = k; payload = p }) (record { kind = l; payload = q })
      ≡ compare_ℤ
          (value (record { kind = k; payload = p }))
          (value (record { kind = l; payload = q }))
unfolding compare_score value
compare_mixed fl i32 i32 p q is_i32 is_i32 e = refl
compare_mixed fl i32 u_i32 p q is_i32 is_u_i32 e =
    e (value (record { kind = i32; payload = p })) (value (record { kind = u_i32; payload = q }))
      (value-In64 i32 p is_i32) (value-In64 u_i32 q is_u_i32)
compare_mixed fl i32 i64 p q is_i32 is_i64 e =
    e (value (record { kind = i32; payload = p })) (value (record { kind = i64; payload = q }))
      (value-In64 i32 p is_i32) (value-In64 i64 q is_i64)
compare_mixed fl i32 u_i64 p q is_i32 is_u_i64 e =
    e (value (record { kind = i32; payload = p })) (value (record { kind = u_i64; payload = q }))
      (value-In64 i32 p is_i32) (value-In64 u_i64 q is_u_i64)
compare_mixed fl u_i32 i32 p q is_u_i32 is_i32 e =
    e (value (record { kind = u_i32; payload = p })) (value (record { kind = i32; payload = q }))
      (value-In64 u_i32 p is_u_i32) (value-In64 i32 q is_i32)
compare_mixed fl u_i32 u_i32 p q is_u_i32 is_u_i32 e = refl
compare_mixed fl u_i32 i64 p q is_u_i32 is_i64 e =
    e (value (record { kind = u_i32; payload = p })) (value (record { kind = i64; payload = q }))
      (value-In64 u_i32 p is_u_i32) (value-In64 i64 q is_i64)
compare_mixed fl u_i32 u_i64 p q is_u_i32 is_u_i64 e =
    e (value (record { kind = u_i32; payload = p })) (value (record { kind = u_i64; payload = q }))
      (value-In64 u_i32 p is_u_i32) (value-In64 u_i64 q is_u_i64)
compare_mixed fl i64 i32 p q is_i64 is_i32 e =
    e (value (record { kind = i64; payload = p })) (value (record { kind = i32; payload = q }))
      (value-In64 i64 p is_i64) (value-In64 i32 q is_i32)
compare_mixed fl i64 u_i32 p q is_i64 is_u_i32 e =
    e (value (record { kind = i64; payload = p })) (value (record { kind = u_i32; payload = q }))
      (value-In64 i64 p is_i64) (value-In64 u_i32 q is_u_i32)
compare_mixed fl i64 i64 p q is_i64 is_i64 e = refl
compare_mixed fl i64 u_i64 p q is_i64 is_u_i64 e =
    e (value (record { kind = i64; payload = p })) (value (record { kind = u_i64; payload = q }))
      (value-In64 i64 p is_i64) (value-In64 u_i64 q is_u_i64)
compare_mixed fl u_i64 i32 p q is_u_i64 is_i32 e =
    e (value (record { kind = u_i64; payload = p })) (value (record { kind = i32; payload = q }))
      (value-In64 u_i64 p is_u_i64) (value-In64 i32 q is_i32)
compare_mixed fl u_i64 u_i32 p q is_u_i64 is_u_i32 e =
    e (value (record { kind = u_i64; payload = p })) (value (record { kind = u_i32; payload = q }))
      (value-In64 u_i64 p is_u_i64) (value-In64 u_i32 q is_u_i32)
compare_mixed fl u_i64 i64 p q is_u_i64 is_i64 e =
    e (value (record { kind = u_i64; payload = p })) (value (record { kind = i64; payload = q }))
      (value-In64 u_i64 p is_u_i64) (value-In64 i64 q is_i64)
compare_mixed fl u_i64 u_i64 p q is_u_i64 is_u_i64 e = refl
compare_mixed fl i32 f32 p q h h' e = elim h' [ ]
compare_mixed fl i32 f64 p q h h' e = elim h' [ ]
compare_mixed fl i32 f128 p q h h' e = elim h' [ ]
compare_mixed fl u_i32 f32 p q h h' e = elim h' [ ]
compare_mixed fl u_i32 f64 p q h h' e = elim h' [ ]
compare_mixed fl u_i32 f128 p q h h' e = elim h' [ ]
compare_mixed fl i64 f32 p q h h' e = elim h' [ ]
compare_mixed fl i64 f64 p q h h' e = elim h' [ ]
compare_mixed fl i64 f128 p q h h' e = elim h' [ ]
compare_mixed fl u_i64 f32 p q h h' e = elim h' [ ]
compare_mixed fl u_i64 f64 p q h h' e = elim h' [ ]
compare_mixed fl u_i64 f128 p q h h' e = elim h' [ ]
compare_mixed fl f32 l p q h h' e = elim h [ ]
compare_mixed fl f64 l p q h h' e = elim h [ ]
compare_mixed fl f128 l p q h h' e = elim h [ ]

-- Two scores of integer types can be compared as integers: they are of one type, or the long doubles hold the
-- integers exactly.
abbrev pub Comparable : Floats → Score → Score → Type 0
Comparable fl old new = (new.kind ≡ old.kind) ⊎ HoldsIntegers fl

compare_score_lem :
    (fl : Floats) (old new : Score)
    → IsInt old.kind
    → IsInt new.kind
    → Comparable fl old new
    → compare_score fl new old ≡ compare_ℤ (value new) (value old)
compare_score_lem fl old new int int' (inl same) =
    let e : new ≡ record { kind = old.kind; payload = new.payload } =
      ap (λ k. let s : Score = record { kind = k; payload = new.payload } in s) same in
    subst (λ n. compare_score fl n old ≡ compare_ℤ (value n) (value old)) (sym e)
      (compare_lem fl old.kind new.payload old.payload int)
compare_score_lem fl old new int int' (inr exact) =
    compare_mixed fl new.kind old.kind new.payload old.payload int' int exact

-- Of two scores of integer types, of one type or, where the long doubles hold all integers of 64 bits exactly, of
-- two types, the new score replaces the old one exactly when its number is greater (smaller, when
-- minimising).
pub should_update_lem :
    (fl : Floats) (g : Goal) (old new : Score)
    → IsInt old.kind
    → IsInt new.kind
    → Comparable fl old new
    → should_update fl g old new ≡ better g (value old) (value new)
should_update_lem fl g old new int int' fits =
    decide fl g old new (value old) (value new) (compare_score_lem fl old new int int' fits)

-- Better is a strict order with comparable numbers.
pub better_trans :
    (g : Goal) (a b c : ℤ) → better g a b ≡ true → better g b c ≡ true → better g a c ≡ true
better_trans maximise a b c h k = ground arith
better_trans minimise a b c h k = ground arith

pub not_better_trans :
    (g : Goal) (a b c : ℤ) → better g a b ≡ false → better g a c ≡ true → better g b c ≡ true
not_better_trans maximise a b c h k = ground arith
not_better_trans minimise a b c h k = ground arith
