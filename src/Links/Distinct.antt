-- ===== src/Links/Distinct.antt =====
-- The list of a node's children: no child twice, and what an append or a removal leaves.
use gempba.Base.{ℕ, ◌≡◌, refl, ◌==◌, false, ◌&&◌, ◌||◌, not, List, [], ◌∷◌, ◌++◌, arith}
use gempba.Links.Store.{elem, remove}

abbrev pub Distinct : List ℕ → Type 0
Distinct [] = Unit
Distinct (x ∷ xs) = (elem x xs ≡ false) × Distinct xs

pub elem-snoc : (x y : ℕ) (xs : List ℕ) → elem x (xs ++ y ∷ []) ≡ elem x xs || x == y
elem-snoc x y [] = ground arith
elem-snoc x y (z ∷ zs) = ground (arith, elem-snoc x y zs)

pub Distinct-snoc :
    (y : ℕ) (xs : List ℕ) → elem y xs ≡ false → Distinct xs → Distinct (xs ++ y ∷ [])
Distinct-snoc y [] fresh d = (refl, tt)
Distinct-snoc y (x ∷ xs) fresh d =
    (ground (arith, elem-snoc x y xs), Distinct-snoc y xs (ground arith) d.1)

pub elem-remove : (x y : ℕ) (xs : List ℕ) → elem x (remove y xs) ≡ elem x xs && not (x == y)
elem-remove x y [] = refl
elem-remove x y (z ∷ zs) = ground (arith, elem-remove x y zs)

pub Distinct-remove : (y : ℕ) (xs : List ℕ) → Distinct xs → Distinct (remove y xs)
Distinct-remove y [] d = tt
Distinct-remove y (x ∷ xs) d = ground (arith, elem-remove x y xs, Distinct-remove y xs)
