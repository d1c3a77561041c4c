-- ===== src/Tree/AddNext.antt =====
-- `add_next`: a node without a parent becomes the last child.
use gempba.Base.{
  ℕ, ◌+◌, ◌≡◌, ◌≢◌, sym, ◌∙◌, ap, List, [], ◌∷◌, ◌++◌, Option, none, some, length, All, arith,
  length-append, All-append, subst,
}
use gempba.Tree.Nodes.{TreeNode, Tree, set_parent, set_left, set_right, set_next, counted}
use gempba.Tree.Shape.{last?, Chain, Distinct, HasChildren, Shape}
use gempba.Tree.Frame.{Same, Chain-frame, Chain-snoc, last-snoc, last_parent}

Distinct-snoc : (ks : List ℕ) (i : ℕ) → All (λ k. k ≢ i) ks → Distinct ks → Distinct (ks ++ i ∷ [])
Distinct-snoc [] i a d = (tt, tt)
Distinct-snoc (k ∷ ks) i a d =
    (All-append (λ j. k ≢ j) ks (i ∷ []) d.0 (a.0, tt), Distinct-snoc ks i a.1 d.1)

orphan_not_in :
    (node : ℕ → TreeNode) (p i : ℕ) (prev : Option ℕ) (ks : List ℕ)
    → (node i).parent ≡ none
    → Chain node p prev ks
    → All (λ k. k ≢ i) ks
orphan_not_in node p i prev [] o c = tt
orphan_not_in node p i prev (k ∷ ks) o c =
    (λ e. ground (arith, c.0), orphan_not_in node p i (some k) ks o c.3)

-- The two trees that `add_next` makes: for a first child, and behind the child `tail`.
abbrev pub first_child : ℕ → ℕ → Tree → Tree
first_child p i t = counted p i (set_next (some i) p (set_parent (some p) i t))

abbrev pub next_child : ℕ → ℕ → ℕ → Tree → Tree
next_child tail p i t =
    counted p i (set_right (some i) tail (set_left (some tail) i (set_parent (some p) i t)))

next_child-last : (t : Tree) (tail p i : ℕ) → ((next_child tail p i t).node p).last ≡ some i
next_child-last t tail p i = ground arith

next_child-next :
    (t : Tree) (tail p i : ℕ) → ((next_child tail p i t).node p).next ≡ (t.node p).next
next_child-next t tail p i = ground arith

next_child-count :
    (t : Tree) (tail p i : ℕ)
    → ((next_child tail p i t).node p).children_count ≡ (t.node p).children_count + 1
next_child-count t tail p i = ground arith

module _ (t : Tree) (kids : ℕ → List ℕ) (p i : ℕ) (shape : Shape t kids)
    (orphan : (t.node i).parent ≡ none) where
  pub first_child-Same : (k : ℕ) → k ≢ i → Same ((first_child p i t).node k) (t.node k)
  first_child-Same k ne = record {
    parent = ground arith;
    left_sibling = ground arith;
    right_sibling = ground arith;
  }

  pub next_child-Same :
      (tail k : ℕ) → k ≢ i → k ≢ tail → Same ((next_child tail p i t).node k) (t.node k)
  next_child-Same tail k ne nt = record {
    parent = ground arith;
    left_sibling = ground arith;
    right_sibling = ground arith;
  }

  pub first_child-others : (q : ℕ) → q ≢ p → HasChildren (first_child p i t) q (kids q)
  first_child-others q ne =
      let h = shape.children q in
      record {
        first = ground (arith, h.first);
        final = ground (arith, h.final);
        counts = ground (arith, h.counts);
        chain =
            Chain-frame t.node (first_child p i t).node q
              (λ k e. first_child-Same k (λ z. ground arith)) none (kids q) h.chain;
        distinct = h.distinct;
      }

  pub first_child-own : kids p ≡ [] → HasChildren (first_child p i t) p (i ∷ [])
  first_child-own e =
      let h = shape.children p in
      record {
        first = ground arith;
        final = ground arith;
        counts = ground (arith, h.counts, ap length e);
        chain = (
          ground arith,
          ground (arith, shape.orphan i orphan),
          ground (arith, shape.orphan i orphan),
          tt,
        );
        distinct = (tt, tt);
      }

  module _ (tail : ℕ) (last : last? (kids p) ≡ some tail) where
    pub tail_parent : ((t.node tail).parent ≡ some p) × ((t.node tail).right_sibling ≡ none)
    tail_parent = last_parent t.node p tail none (kids p) (shape.children p).chain last

    pub next_child-others : (q : ℕ) → q ≢ p → HasChildren (next_child tail p i t) q (kids q)
    next_child-others q ne =
        let h = shape.children q in
        record {
          first = ground (arith, h.first);
          final = ground (arith, h.final);
          counts = ground (arith, h.counts);
          chain =
              Chain-frame t.node (next_child tail p i t).node q
                (λ k e.
                  next_child-Same tail k (λ z. ground arith) (λ z. ground (arith, tail_parent)))
                none (kids q) h.chain;
          distinct = h.distinct;
        }

    pub next_child-own :
        (k : ℕ) (ks : List ℕ)
        → kids p ≡ k ∷ ks
        → HasChildren (next_child tail p i t) p (k ∷ ks ++ i ∷ [])
    next_child-own k ks e =
        let h : HasChildren t p (k ∷ ks) = subst (HasChildren t p) e (shape.children p) in
        record {
          first = next_child-next t tail p i ∙ h.first;
          final = next_child-last t tail p i ∙ sym (last-snoc (k ∷ ks) i);
          counts = omega (arith, next_child-count t tail p i, h.counts, length-append ks (i ∷ []));
          chain =
              Chain-snoc t.node (next_child tail p i t).node p i tail
                (λ j q nt. next_child-Same tail j (λ z. ground arith) nt)
                (
                  ground (arith, tail_parent),
                  ground (arith, tail_parent),
                  ground (arith, tail_parent),
                )
                (
                  ground (arith, tail_parent),
                  ground (arith, tail_parent),
                  ground (arith, tail_parent, shape.orphan i orphan),
                )
                none k ks h.chain (ap last? (sym e) ∙ last) h.distinct;
          distinct =
              Distinct-snoc (k ∷ ks) i (orphan_not_in t.node p i none (k ∷ ks) orphan h.chain)
                h.distinct;
        }
