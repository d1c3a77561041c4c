-- ===== src/Semi/Cells.antt =====
-- The cells of a worker's list of next processes.
use gempba.Base.{ℕ, suc, List, [], ◌∷◌, length, ◌≡◌, refl, ap, Option, none, some, All}
use gempba.Ranks.Shift.{shift_cells}
use gempba.Semi.Channel.{overwrite, head, IsNext}

-- -1 or a rank to send to.
abbrev pub IsCell : ℕ → Option ℕ → Type 0
IsCell me none = Unit
IsCell me (some k) = IsNext me k

pub shift_cells-All :
    (P : Option ℕ → Type 0) (cells : List (Option ℕ))
    → P none
    → All P cells
    → All P (shift_cells cells)
unfolding shift_cells
shift_cells-All P [] n a = a
shift_cells-All P (c ∷ []) n a = a
shift_cells-All P (none ∷ b ∷ cells) n a = a
shift_cells-All P (some x ∷ none ∷ []) n a = (n, (n, tt))
shift_cells-All P (some x ∷ some y ∷ []) n (p, (q, e)) = (q, (n, tt))
shift_cells-All P (some x ∷ b ∷ c ∷ cells) n (p, (q, a)) =
    (q, shift_cells-All P (b ∷ c ∷ cells) n (q, a))

pub length-shift_cells : (cells : List (Option ℕ)) → length (shift_cells cells) ≡ length cells
unfolding shift_cells
length-shift_cells [] = refl
length-shift_cells (c ∷ []) = refl
length-shift_cells (none ∷ b ∷ cells) = refl
length-shift_cells (some x ∷ none ∷ []) = refl
length-shift_cells (some x ∷ some y ∷ []) = refl
length-shift_cells (some x ∷ b ∷ c ∷ cells) = ap suc (length-shift_cells (b ∷ c ∷ cells))

pub overwrite-All :
    (me : ℕ) (ks : List ℕ) (cells : List (Option ℕ))
    → All (IsNext me) ks
    → All (IsCell me) cells
    → All (IsCell me) (overwrite ks cells)
unfolding overwrite
overwrite-All me [] cells a b = b
overwrite-All me (k ∷ ks) [] a b = tt
overwrite-All me (k ∷ ks) (c ∷ cells) (p, a) (q, b) = (p, overwrite-All me ks cells a b)

pub length-overwrite :
    (ks : List ℕ) (cells : List (Option ℕ)) → length (overwrite ks cells) ≡ length cells
unfolding overwrite
length-overwrite [] cells = refl
length-overwrite (k ∷ ks) [] = refl
length-overwrite (k ∷ ks) (c ∷ cells) = ap suc (length-overwrite ks cells)

pub head-IsCell :
    (me : ℕ) (cells : List (Option ℕ)) → All (IsCell me) cells → IsCell me (head cells)
head-IsCell me [] a = tt
head-IsCell me (c ∷ cells) a = a.0
