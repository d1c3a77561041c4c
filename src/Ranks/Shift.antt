-- ===== src/Ranks/Shift.antt =====
-- shift_left in utils.hpp, on a vector of ranks in which -1 is `none`. A rank is never negative.
use gempba.Base.{
  ℕ, ◌≤◌, ◌≡◌, refl, sym, ◌∙◌, ap, List, [], ◌∷◌, ◌++◌, Option, none, some, length, drop, All,
  All-append, arith,
}

-- The loop from cell i on, on the cells from i to the end: the cells before i are not read any more. At the
-- last but one cell it also looks at what it has just copied.
unfoldable pub shift_cells : List (Option ℕ) → List (Option ℕ)
shift_cells [] = []
shift_cells (a ∷ []) = a ∷ []
shift_cells (none ∷ b ∷ cells) = none ∷ b ∷ cells
shift_cells (some a ∷ b ∷ []) = elim b [ some r ↦ some r ∷ none ∷ [] | none ↦ none ∷ none ∷ [] ]
shift_cells (some a ∷ b ∷ c ∷ cells) = b ∷ shift_cells (b ∷ c ∷ cells)

-- `none` is the exception on an empty vector.
unfoldable pub shift_left : List (Option ℕ) → Option (List (Option ℕ))
shift_left [] = none
shift_left (a ∷ cells) = some (shift_cells (a ∷ cells))

-- The vector is full, or has its -1 values on the right side.
abbrev pub Packed : List (Option ℕ) → Type 0
Packed [] = Unit
Packed (none ∷ cells) = All (λ c. c ≡ none) cells
Packed (some a ∷ cells) = Packed cells

empty_shift :
    (b : Option ℕ) (cells : List (Option ℕ))
    → All (λ c. c ≡ none) (b ∷ cells)
    → none ∷ b ∷ cells ≡ b ∷ cells ++ none ∷ []
empty_shift b [] a = rw (a.0) refl
empty_shift b (c ∷ cells) a =
    ap (λ x. none ∷ x ∷ c ∷ cells) a.0
    ∙ ap (λ x. none ∷ x) (empty_shift c cells a.1)
    ∙ ap (λ x. x ∷ (c ∷ cells) ++ none ∷ []) (sym a.0)

shifted :
    (a b : Option ℕ) (cells : List (Option ℕ))
    → Packed (a ∷ b ∷ cells)
    → shift_cells (a ∷ b ∷ cells) ≡ b ∷ cells ++ none ∷ []
unfolding shift_cells
shifted none b cells packed = empty_shift b cells packed
shifted (some a) none [] packed = refl
shifted (some a) (some b) [] packed = refl
shifted (some a) b (c ∷ cells) packed = ap (λ x. b ∷ x) (shifted b c cells packed)

Packed-snoc : (cells : List (Option ℕ)) → Packed cells → Packed (cells ++ none ∷ [])
Packed-snoc [] packed = tt
Packed-snoc (none ∷ cells) packed = All-append _ cells (none ∷ []) packed (refl, tt)
Packed-snoc (some a ∷ cells) packed = Packed-snoc cells packed

Packed-tail : (a : Option ℕ) (cells : List (Option ℕ)) → Packed (a ∷ cells) → Packed cells
Packed-tail (some a) cells packed = packed
Packed-tail none [] packed = tt
Packed-tail none (none ∷ cells) packed = packed.1
Packed-tail none (some b ∷ cells) packed = ground (arith, packed.0)

-- shift_left on a vector of two cells or more that is full or has its -1 values on the right side: it
-- drops the first cell, moves every other one to the left and sets the last cell to -1, and the vector
-- has its -1 values on the right side again.
pub shift_left_lem :
    (cells : List (Option ℕ))
    → Packed cells
    → 2 ≤ length cells
    → (shift_left cells ≡ some (drop 1 cells ++ none ∷ [])) × Packed (drop 1 cells ++ none ∷ [])
unfolding shift_left
shift_left_lem [] packed two = ground arith
shift_left_lem (a ∷ []) packed two = ground arith
shift_left_lem (a ∷ b ∷ cells) packed two =
    (ap some (shifted a b cells packed), Packed-snoc (b ∷ cells) (Packed-tail a (b ∷ cells) packed))
