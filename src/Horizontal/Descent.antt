-- ===== src/Horizontal/Descent.antt =====
-- The way down from a root through nodes with one child.
use gempba.Base.{
  ℕ, ◌≡◌, refl, sym, ◌∙◌, ◌==◌, leb, true, false, ◌||◌, List, [], ◌∷◌, length, last, All, ◌⊎◌,
  arith,
}
use gempba.Links.Store.{Link, elem}

abbrev pub all_but_last : ℕ → List ℕ → List ℕ
all_but_last r [] = []
all_but_last r (n ∷ ns) = r ∷ all_but_last n ns

-- Each node has just one child, the next one; the way down ends at `p`, or at a node with no child or
-- with more than one, and not before.
abbrev pub Descent : (ℕ → Link) → ℕ → ℕ → List ℕ → Type 0
Descent f p r [] = Unit
Descent f p r (n ∷ []) =
    ((f r).children ≡ n ∷ [])
    × ((((n == p) || leb 2 (length (f n).children)) ≡ true) ⊎ ((f n).children ≡ []))
Descent f p r (n ∷ m ∷ ms) = ((f r).children ≡ n ∷ []) × ((n == p) ≡ false) × Descent f p n (m ∷ ms)

pub Descent-agree :
    (f g : ℕ → Link) (p r : ℕ) (ns : List ℕ)
    → All (λ i. (f i).children ≡ (g i).children) (r ∷ ns)
    → Descent f p r ns
    → Descent g p r ns
Descent-agree f g p r [] same d = tt
Descent-agree f g p r (n ∷ []) same d = (sym same.0 ∙ d.0, rw (← same.1.0) d.1)
Descent-agree f g p r (n ∷ m ∷ ms) same d =
    (sym same.0 ∙ d.0, d.1, Descent-agree f g p n (m ∷ ms) same.1 d.2)

pub Descent-head :
    (f : ℕ → Link) (p r n : ℕ) (ns : List ℕ) → Descent f p r (n ∷ ns) → (f r).children ≡ n ∷ []
Descent-head f p r n [] d = d.0
Descent-head f p r n (m ∷ ms) d = d.0

pub elem-last : (r n : ℕ) (ms : List ℕ) → elem r (n ∷ ms) ≡ false → (r == last n ms) ≡ false
elem-last r n [] h = ground arith
elem-last r n (m ∷ ms) h = elem-last r m ms (ground arith)

pub elem-all_but_last :
    (r n : ℕ) (ms : List ℕ) → elem r (n ∷ ms) ≡ false → elem r (all_but_last n ms) ≡ false
elem-all_but_last r n [] h = refl
elem-all_but_last r n (m ∷ ms) h = ground (arith, elem-all_but_last r m ms)
