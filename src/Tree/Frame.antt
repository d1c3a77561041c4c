-- ===== src/Tree/Frame.antt =====
-- What a change of some nodes leaves alone.
use gempba.Base.{
  ℕ, suc, ◌≡◌, ◌≢◌, refl, ◌∙◌, subst, List, [], ◌∷◌, ◌++◌, Option, none, some, length, All, arith,
}
use gempba.Tree.Nodes.{TreeNode, Tree, tail_from}
use gempba.Tree.Shape.{last?, Chain, Distinct}

-- The links to the parent and the siblings are the same.
pub record Same (m n : TreeNode) : Type 0 where
  pub parent : m.parent ≡ n.parent
  pub left_sibling : m.left_sibling ≡ n.left_sibling
  pub right_sibling : m.right_sibling ≡ n.right_sibling

module _ (node node' : ℕ → TreeNode) (q : ℕ) where
  pub Chain-frame :
      ((k : ℕ) → (node k).parent ≡ some q → Same (node' k) (node k))
      → (prev : Option ℕ) (ks : List ℕ) → Chain node q prev ks
      → Chain node' q prev ks
  Chain-frame same prev [] c = tt
  Chain-frame same prev (k ∷ ks) c =
      let s = same k c.0 in
      (
        s.parent ∙ c.0,
        s.left_sibling ∙ c.1,
        s.right_sibling ∙ c.2,
        Chain-frame same (some k) ks c.3,
      )

last_among : (k tail : ℕ) (ks : List ℕ) → All (λ j. k ≢ j) ks → last? ks ≡ some tail → k ≢ tail
last_among k tail [] a e = cc
last_among k tail (l ∷ []) a e = λ f. a.0 (ground arith)
last_among k tail (l ∷ m ∷ ks) a e = last_among k tail (m ∷ ks) a.1 e

pub last_of_cons : (k : ℕ) (ks : List ℕ) → (l : ℕ) × (last? (k ∷ ks) ≡ some l)
last_of_cons k [] = (k, refl)
last_of_cons k (l ∷ ks) = last_of_cons l ks

pub last-snoc : (ks : List ℕ) (i : ℕ) → last? (ks ++ i ∷ []) ≡ some i
last-snoc [] i = refl
last-snoc (k ∷ []) i = refl
last-snoc (k ∷ l ∷ ks) i = last-snoc (l ∷ ks) i

pub last_parent :
    (node : ℕ → TreeNode) (p tail : ℕ) (prev : Option ℕ) (ks : List ℕ)
    → Chain node p prev ks
    → last? ks ≡ some tail
    → ((node tail).parent ≡ some p) × ((node tail).right_sibling ≡ none)
last_parent node p tail prev [] c e = cc
last_parent node p tail prev (k ∷ []) c e = ground arith
last_parent node p tail prev (k ∷ l ∷ ks) c e = last_parent node p tail (some k) (l ∷ ks) c.3 e

-- The loop to the last child ends there.
pub tail_from_lem :
    (t : Tree) (p k : ℕ) (prev : Option ℕ) (ks : List ℕ)
    → Chain t.node p prev (k ∷ ks)
    → tail_from (suc (length ks)) t k ≡ last? (k ∷ ks)
unfolding tail_from
tail_from_lem t p k prev [] c = rw (c.2, tail_from)
tail_from_lem t p k prev (l ∷ ks) c = rw (c.2, tail_from) (tail_from_lem t p l (some k) ks c.3)

-- One more node behind the last.
module _ (node node' : ℕ → TreeNode) (p i tail : ℕ)
    (same : (k : ℕ) → (node k).parent ≡ some p → k ≢ tail → Same (node' k) (node k))
    (at_tail : ((node' tail).parent ≡ some p)
      × ((node' tail).left_sibling ≡ (node tail).left_sibling)
      × ((node' tail).right_sibling ≡ some i))
    (at_new : ((node' i).parent ≡ some p)
      × ((node' i).left_sibling ≡ some tail)
      × ((node' i).right_sibling ≡ none)) where
  pub Chain-snoc :
      (prev : Option ℕ) (k : ℕ) (ks : List ℕ)
      → Chain node p prev (k ∷ ks)
      → last? (k ∷ ks) ≡ some tail
      → Distinct (k ∷ ks)
      → Chain node' p prev (k ∷ ks ++ i ∷ [])
  Chain-snoc prev k [] c e d =
      let k_tail : k ≡ tail = ground arith in
      rw k_tail (
        at_tail.0,
        at_tail.1 ∙ subst (λ j. (node j).left_sibling ≡ prev) k_tail c.1,
        at_tail.2,
        (at_new.0, at_new.1, at_new.2, tt),
      )
  Chain-snoc prev k (l ∷ ks) c e d =
      let s = same k c.0 (last_among k tail (l ∷ ks) d.0 e) in
      (
        s.parent ∙ c.0,
        s.left_sibling ∙ c.1,
        s.right_sibling ∙ c.2,
        Chain-snoc (some k) l ks c.3 e d.1,
      )

-- The links of a list depend only on the nodes of the list.
pub Chain-among :
    (node node' : ℕ → TreeNode) (q : ℕ) (prev : Option ℕ) (ks : List ℕ)
    → All (λ k. Same (node' k) (node k)) ks
    → Chain node q prev ks
    → Chain node' q prev ks
Chain-among node node' q prev [] same c = tt
Chain-among node node' q prev (k ∷ ks) same c = (
  same.0.parent ∙ c.0,
  same.0.left_sibling ∙ c.1,
  same.0.right_sibling ∙ c.2,
  Chain-among node node' q (some k) ks same.1 c.3,
)
