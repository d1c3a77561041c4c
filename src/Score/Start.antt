-- ===== src/Score/Start.antt =====
-- The score that a search starts from.
use gempba.Base.{
  ℕ, ◌≡◌, refl, sym, ap, subst, ◌∙◌, true, false, some, ◌⊎◌, inl, inr, Bool-cases, arith,
}
use gempba.Base.Int.{ℤ, pos, negsuc}
use gempba.Score.Defs.{
  ScoreType, i32, u_i32, i64, u_i64, Score, Floats, Goal, maximise, minimise, should_update,
  get_default_score, make,
}
use gempba.Score.Order.{IsInt, is_i32, is_i64, value, better, should_update_lem}

-- The types whose starting score is the end of their range.
pub data HasLimits : ScoreType → Type 0 where
  has_i32 : HasLimits i32
  has_i64 : HasLimits i64

limits-IsInt : {k : ScoreType} → HasLimits k → IsInt k
limits-IsInt has_i32 = is_i32
limits-IsInt has_i64 = is_i64

limit : Goal → ScoreType → ℤ
limit maximise i32 = negsuc 2147483647
limit minimise i32 = pos 2147483647
limit maximise _ = negsuc 9223372036854775807
limit minimise _ = pos 9223372036854775807

extreme :
    (k : ScoreType) (g : Goal) (p : ℕ)
    → HasLimits k
    → (better g (limit g k) (value (record { kind = k; payload = p })) ≡ false
        → value (record { kind = k; payload = p }) ≡ limit g k)
      × (better g (value (record { kind = k; payload = p })) (limit g k) ≡ false)
unfolding limit value
extreme i32 maximise p has_i32 = (λ h. ground arith, ground arith)
extreme i32 minimise p has_i32 = (λ h. ground arith, ground arith)
extreme i64 maximise p has_i64 = (λ h. ground arith, ground arith)
extreme i64 minimise p has_i64 = (λ h. ground arith, ground arith)
extreme u_i32 g p h = elim h [ ]
extreme u_i64 g p h = elim h [ ]
extreme ScoreType.f32 g p h = elim h [ ]
extreme ScoreType.f64 g p h = elim h [ ]
extreme ScoreType.f128 g p h = elim h [ ]

start_at :
    (fl : Floats) (g : Goal) (k : ScoreType)
    → HasLimits k
    → (d : Score) × (get_default_score fl g k ≡ some d) × (d.kind ≡ k) × (value d ≡ limit g k)
unfolding get_default_score limit value
start_at fl maximise i32 has_i32 = (make i32 2147483648, refl, refl, refl)
start_at fl minimise i32 has_i32 = (make i32 2147483647, refl, refl, refl)
start_at fl maximise i64 has_i64 = (make i64 9223372036854775808, refl, refl, refl)
start_at fl minimise i64 has_i64 = (make i64 9223372036854775807, refl, refl, refl)
start_at fl g u_i32 h = elim h [ ]
start_at fl g u_i64 h = elim h [ ]
start_at fl g ScoreType.f32 h = elim h [ ]
start_at fl g ScoreType.f64 h = elim h [ ]
start_at fl g ScoreType.f128 h = elim h [ ]

-- The starting score of I32 and of I64: it is a score of that type, and any score of the type replaces it
-- unless it has the same number, and is never replaced by it, whichever the goal.
get_default_score_lem :
    (fl : Floats) (g : Goal) (s : Score)
    → HasLimits s.kind
    → (d : Score) × (get_default_score fl g s.kind ≡ some d)
      × (d.kind ≡ s.kind)
      × ((should_update fl g d s ≡ true) ⊎ (value s ≡ value d))
      × (should_update fl g s d ≡ false)
get_default_score_lem fl g s h =
    let (d, made, kind, at) = start_at fl g s.kind h in
    let e = extreme s.kind g s.payload h in
    let int = limits-IsInt h in
    let up =
      should_update_lem fl g d s (subst IsInt (sym kind) int) int (inl (sym kind))
      ∙ ap (λ z. better g z (value s)) at in
    (
      d,
      made,
      kind,
      elim (Bool-cases (better g (limit g s.kind) (value s))) [
        | inl wins ↦ inl (up ∙ wins)
        | inr loses ↦ inr (e.0 loses ∙ sym at)
      ],
      should_update_lem fl g s d int (subst IsInt (sym kind) int) (inl kind)
          ∙ ap (λ z. better g (value s) z) at
          ∙ e.1,
    )
