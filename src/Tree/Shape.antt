-- ===== src/Tree/Shape.antt =====
-- The shape that the pointers describe: for each node the list of its children, first to last.
use gempba.Base.{ℕ, ◌≡◌, ◌≢◌, List, [], ◌∷◌, ◌++◌, Option, none, some, length, All}
use gempba.Tree.Nodes.{TreeNode, Tree}

abbrev pub head? : List ℕ → Option ℕ
head? [] = none
head? (k ∷ ks) = some k

abbrev pub last? : List ℕ → Option ℕ
last? [] = none
last? (k ∷ []) = some k
last? (k ∷ l ∷ ks) = last? (l ∷ ks)

-- The nodes of a list are linked both ways, `prev` stands before the first, and `p` is their parent.
abbrev pub Chain : (ℕ → TreeNode) → ℕ → Option ℕ → List ℕ → Type 0
Chain node p prev [] = Unit
Chain node p prev (k ∷ ks) =
    ((node k).parent ≡ some p)
    × ((node k).left_sibling ≡ prev)
    × ((node k).right_sibling ≡ head? ks)
    × Chain node p (some k) ks

abbrev pub Distinct : List ℕ → Type 0
Distinct [] = Unit
Distinct (k ∷ ks) = All (λ j. k ≢ j) ks × Distinct ks

-- `p` has the children `ks`.
pub record HasChildren (t : Tree) (p : ℕ) (ks : List ℕ) : Type 0 where
  pub first : (t.node p).next ≡ head? ks
  pub final : (t.node p).last ≡ last? ks
  pub counts : (t.node p).children_count ≡ length ks
  pub chain : Chain t.node p none ks
  pub distinct : Distinct ks

-- The tree has the shape `kids`: each node stands among the children of its parent, and a node with no
-- parent has no sibling.
pub record Shape (t : Tree) (kids : ℕ → List ℕ) : Type 0 where
  pub children : (p : ℕ) → HasChildren t p (kids p)
  pub member :
      (i p : ℕ)
      → (t.node i).parent ≡ some p
      → (xs : List ℕ) × (ys : List ℕ) × (kids p ≡ xs ++ i ∷ ys)
  pub orphan :
      (i : ℕ)
      → (t.node i).parent ≡ none
      → ((t.node i).left_sibling ≡ none) × ((t.node i).right_sibling ≡ none)
