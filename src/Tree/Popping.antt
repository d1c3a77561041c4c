-- ===== src/Tree/Popping.antt =====
-- What `pop_front` does on a tree whose pointers describe a shape.
use gempba.Base.{
  ℕ, ◌≡◌, ◌≢◌, sym, ◌∙◌, ap, List, [], ◌∷◌, ◌++◌, none, some, length, All, inl, inr, arith, update,
  update_ne, ◌==◌, Bool-cases, subst,
}
use gempba.Tree.Nodes.{Tree}
use gempba.Tree.Shape.{head?, HasChildren, Shape}
use gempba.Tree.Frame.{Same, Chain-frame, Chain-among}
use gempba.Tree.Extended.{update_at}
use gempba.Tree.Removal.{
  only_left, first_left, only_left-Same, first_left-parent, first_left-right, first_left-left,
  first_left-next, first_left-second, first_left-count, first_left-last,
}

abbrev rest_of : List ℕ → List ℕ
rest_of [] = []
rest_of (z ∷ zs) = zs

-- A later member of a list is a member of the rest.
later :
    (k j : ℕ) (ks xs ys : List ℕ)
    → j ≢ k
    → k ∷ ks ≡ xs ++ j ∷ ys
    → (zs : List ℕ) × (ks ≡ zs ++ j ∷ ys)
later k j ks [] ys ne e = ground (arith, ap head? e)
later k j ks (x ∷ xs) ys ne e = (xs, ap rest_of e)

module _ (t : Tree) (kids : ℕ → List ℕ) (p k : ℕ) (ks : List ℕ) (shape : Shape t kids)
    (mine : kids p ≡ k ∷ ks) where
  pub before : HasChildren t p (k ∷ ks)
  before = subst (HasChildren t p) mine (shape.children p)

  pub without-Shape :
      (t' : Tree)
      → HasChildren t' p ks
      → ((q : ℕ) → q ≢ p → HasChildren t' q (kids q))
      → ((t'.node k).parent ≡ none)
        × ((t'.node k).left_sibling ≡ none)
        × ((t'.node k).right_sibling ≡ none)
      → ((j : ℕ) → j ≢ k → (t'.node j).parent ≡ (t.node j).parent)
      → ((j : ℕ) → j ≢ k → (t.node j).parent ≡ none → Same (t'.node j) (t.node j))
      → Shape t' (update kids p ks)
  without-Shape t' own others gone old orphans = record {
    children = λ q. elim (Bool-cases (q == p)) [
      | inl e ↦ rw e (subst (λ r. HasChildren t' r ks) (ground arith) own)
      | inr e ↦ rw e (others q (ground arith))
    ];
    member = λ j r e.
        let ne : j ≢ k = λ z. ground (arith, ap (λ m. (t'.node m).parent) z) in
        let (xs, ys, m) = shape.member j r (sym (old j ne) ∙ e) in
        elim (Bool-cases (r == p)) [
          | inl at ↦
              let r_p : r ≡ p = ground arith in
              let (zs, f) = later k j ks xs ys ne (sym mine ∙ ap kids (sym r_p) ∙ m) in
              (zs, ys, update_at kids p r ks r_p ∙ f)
          | inr off ↦ (xs, ys, update_ne kids p ks r (ground arith) ∙ m)
        ];
    orphan = λ j e. elim (Bool-cases (j == k)) [
      | inl at ↦
          let j_k : j ≡ k = ground arith in
          (
            ap (λ m. (t'.node m).left_sibling) j_k ∙ gone.1,
            ap (λ m. (t'.node m).right_sibling) j_k ∙ gone.2,
          )
      | inr off ↦
          let ne : j ≢ k = ground arith in
          let s = orphans j ne (sym (old j ne) ∙ e) in
          let o = shape.orphan j (sym (old j ne) ∙ e) in
          (s.left_sibling ∙ o.0, s.right_sibling ∙ o.1)
    ];
  }

  -- The only child.
  pub only-own : ks ≡ [] → HasChildren (only_left p k t) p []
  only-own e = record {
    first = ground arith;
    final = ground arith;
    counts = ground (arith, before.counts, ap length e);
    chain = tt;
    distinct = tt;
  }

  pub only-others : (q : ℕ) → q ≢ p → HasChildren (only_left p k t) q (kids q)
  only-others q ne =
      let h = shape.children q in
      record {
        first = ground (arith, h.first);
        final = ground (arith, h.final);
        counts = ground (arith, h.counts);
        chain =
            Chain-frame t.node (only_left p k t).node q
              (λ j e.
                only_left-Same t p k j
                  (λ z. ground (arith, before.chain, ap (λ m. (t.node m).parent) z)))
              none (kids q) h.chain;
        distinct = h.distinct;
      }

  pub only-gone :
      ks ≡ []
      → (((only_left p k t).node k).parent ≡ none)
        × (((only_left p k t).node k).left_sibling ≡ none)
        × (((only_left p k t).node k).right_sibling ≡ none)
  only-gone e =
      let right : (t.node k).right_sibling ≡ none = before.chain.2 ∙ ap head? e in
      (ground arith, ground (arith, before.chain.1), ground arith)

  -- The first of several.
  pub first-Same : (l : ℕ) (j : ℕ) → j ≢ k → j ≢ l → Same ((first_left p k l t).node j) (t.node j)
  first-Same l j ne nl = record {
    parent = first_left-parent t p k l j ne;
    left_sibling = first_left-left t p k l j ne nl;
    right_sibling = first_left-right t p k l j ne;
  }

  rest-Same :
      (l : ℕ) (ls : List ℕ)
      → All (λ j. k ≢ j) ls
      → All (λ j. l ≢ j) ls
      → All (λ j. Same ((first_left p k l t).node j) (t.node j)) ls
  rest-Same l [] a b = tt
  rest-Same l (j ∷ js) a b =
      (first-Same l j (λ z. a.0 (sym z)) (λ z. b.0 (sym z)), rest-Same l js a.1 b.1)

  module _ (l : ℕ) (ls : List ℕ) (more : ks ≡ l ∷ ls) where
    pub several : HasChildren t p (k ∷ l ∷ ls)
    several = subst (λ xs. HasChildren t p (k ∷ xs)) more before

    pub first-own : HasChildren (first_left p k l t) p (l ∷ ls)
    first-own =
        let h = several in
        let l_k : l ≢ k = λ z. h.distinct.0.0 (sym z) in
        record {
          first = first_left-next t p k l;
          final = first_left-last t p k l ∙ h.final;
          counts = omega (arith, first_left-count t p k l, h.counts);
          chain = (
            first_left-parent t p k l l l_k ∙ h.chain.3.0,
            first_left-second t p k l,
            first_left-right t p k l l l_k ∙ h.chain.3.2,
            Chain-among t.node (first_left p k l t).node p (some l) ls
                (rest-Same l ls h.distinct.0.1 h.distinct.1.0) h.chain.3.3,
          );
          distinct = h.distinct.1;
        }

    pub first-others : (q : ℕ) → q ≢ p → HasChildren (first_left p k l t) q (kids q)
    first-others q ne =
        let h = shape.children q in
        let s = several in
        record {
          first = ground (arith, h.first);
          final = ground (arith, h.final);
          counts = ground (arith, h.counts);
          chain =
              Chain-frame t.node (first_left p k l t).node q
                (λ j e.
                  first-Same l j (λ z. ground (arith, s.chain.0, ap (λ m. (t.node m).parent) z))
                    (λ z. ground (arith, s.chain.3.0, ap (λ m. (t.node m).parent) z)))
                none (kids q) h.chain;
          distinct = h.distinct;
        }
