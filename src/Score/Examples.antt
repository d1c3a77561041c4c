-- ===== src/Score/Examples.antt =====
-- Runs of the theorems on scores.
use gempba.Base.{ℕ, ◌<◌, ◌≡◌, ◌⊎◌, refl, List, [], ◌∷◌, none, some, inr, arith}
use gempba.Base.Int.{ℤ, pos}
use gempba.Score.Defs.{
  i32, u_i64, f128, Score, Floats, maximise, m64, to_raw, from_raw, compare_ℤ, should_update,
}
use gempba.Score.Raw.{to_raw-from_raw}
use gempba.Score.Order.{is_i32, is_u_i64, HoldsIntegers, value, better, should_update_lem}
use gempba.Score.Manager.{NodeManager, any, Update, plain, serialized, score_only, run}
use gempba.Score.Best.{Best, Kept, run_lem}

-- -3 and 5 as I32
abbrev minus_three : Score
minus_three = record { kind = i32; payload = 4294967293 }

abbrev five : Score
five = record { kind = i32; payload = 5 }

to_raw-from_raw_example :
    ((raw : ℕ) × (to_raw minus_three ≡ some raw)
      × (raw < m64)
      × (from_raw minus_three.kind raw ≡ some minus_three))
    ⊎ ((minus_three.kind ≡ f128)
        × (to_raw minus_three ≡ none)
        × (from_raw minus_three.kind minus_three.payload ≡ none))
to_raw-from_raw_example = to_raw-from_raw minus_three (omega arith)

-- Long doubles that are the integers themselves.
abbrev exact : Floats
exact = record {
  LongDouble = ℤ;
  of_int = λ z. z;
  of_f32 = λ b. pos b;
  of_f64 = λ b. pos b;
  of_f128 = λ b. pos b;
  ldbl_min = 1;
  ldbl_max = 2;
  compare_ld = compare_ℤ;
}

exact-HoldsIntegers : HoldsIntegers exact
exact-HoldsIntegers a b low high = refl

-- 7 as an unsigned integer of 64 bits
abbrev seven : Score
seven = record { kind = u_i64; payload = 7 }

should_update_lem_example :
    should_update exact maximise minus_three seven
    ≡ better maximise (value minus_three) (value seven)
should_update_lem_example =
    should_update_lem exact maximise minus_three seven is_i32 is_u_i64 (inr exact-HoldsIntegers)

abbrev manager : NodeManager ℕ (List ℕ)
manager = record { result = any none; score = minus_three; goal = maximise }

abbrev updates : List (Update ℕ (List ℕ))
updates = plain 10 five ∷ score_only seven ∷ serialized 11 five (λ n. n ∷ []) ∷ []

run_lem_example :
    Kept exact [] manager updates (run exact [] updates manager)
    ⊎ Best exact [] manager updates (run exact [] updates manager)
run_lem_example =
    run_lem exact [] updates manager
      (is_i32, (is_i32, (is_u_i64, (is_i32, tt))), inr exact-HoldsIntegers)
