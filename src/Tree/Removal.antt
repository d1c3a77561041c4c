-- ===== src/Tree/Removal.antt =====
-- The trees that `pop_front` makes, node by node.
use gempba.Base.{ℕ, ◌-◌, ◌≡◌, ◌≢◌, ◌∙◌, ap, none, some, arith}
use gempba.Tree.Nodes.{
  Tree, ok, pop_front, pop_from, detach, fewer, set_parent, set_left, set_right, set_next, set_last,
}
use gempba.Tree.Frame.{Same}

abbrev pub only_left : ℕ → ℕ → Tree → Tree
only_left p k t = fewer p (set_last none p (set_next none p (set_parent none k t)))

abbrev pub first_left : ℕ → ℕ → ℕ → Tree → Tree
first_left p k l t = fewer p (
    set_right none k
      (set_left none k (set_parent none k (set_left none l (set_next (some l) p t)))))

module _ (t : Tree) (p k : ℕ) where
  pub only_left-Same : (j : ℕ) → j ≢ k → Same ((only_left p k t).node j) (t.node j)
  only_left-Same j ne = record {
    parent = ground arith;
    left_sibling = ground arith;
    right_sibling = ground arith;
  }

  pub pop_front-only :
      (t.node p).next ≡ some k
      → (t.node k).right_sibling ≡ none
      → pop_front p t ≡ ok (only_left p k t)
  unfolding pop_front pop_from detach
  pop_front-only e f = ap (λ x. pop_from x p t) e ∙ ap (λ x. detach x k p t) f

  module _ (l : ℕ) where
    pub first_left-parent :
        (j : ℕ) → j ≢ k → ((first_left p k l t).node j).parent ≡ (t.node j).parent
    first_left-parent j ne = ground arith

    pub first_left-right :
        (j : ℕ) → j ≢ k → ((first_left p k l t).node j).right_sibling ≡ (t.node j).right_sibling
    first_left-right j ne = ground arith

    pub first_left-left :
        (j : ℕ)
        → j ≢ k
        → j ≢ l
        → ((first_left p k l t).node j).left_sibling ≡ (t.node j).left_sibling
    first_left-left j ne nl = ground arith

    pub first_left-next : ((first_left p k l t).node p).next ≡ some l
    first_left-next = ground arith

    pub first_left-second : ((first_left p k l t).node l).left_sibling ≡ none
    first_left-second = ground arith

    pub first_left-front :
        (((first_left p k l t).node k).parent ≡ none)
        × (((first_left p k l t).node k).left_sibling ≡ none)
        × (((first_left p k l t).node k).right_sibling ≡ none)
    first_left-front = (ground arith, ground arith, ground arith)

    pub first_left-count :
        ((first_left p k l t).node p).children_count ≡ (t.node p).children_count - 1
    first_left-count = ground arith

    pub first_left-last : ((first_left p k l t).node p).last ≡ (t.node p).last
    first_left-last = ground arith

    pub pop_front-first :
        (t.node p).next ≡ some k
        → (t.node k).right_sibling ≡ some l
        → pop_front p t ≡ ok (first_left p k l t)
    unfolding pop_front pop_from detach
    pop_front-first e f = ap (λ x. pop_from x p t) e ∙ ap (λ x. detach x k p t) f
