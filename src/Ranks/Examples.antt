-- ===== src/Ranks/Examples.antt =====
-- Two ranks in a vector of three cells.
use gempba.Base.{ℕ, arith, ◌≡◌, List, [], ◌∷◌, Option, none, some}
use gempba.Ranks.Shift.{shift_left, Packed, shift_left_lem}

abbrev cells : List (Option ℕ)
cells = some 3 ∷ some 5 ∷ none ∷ []

shift_left_lem_example :
    (shift_left cells ≡ some (some 5 ∷ none ∷ none ∷ [])) × Packed (some 5 ∷ none ∷ none ∷ [])
shift_left_lem_example = shift_left_lem cells tt (ground arith)
