-- ===== src/Tree/Extended.antt =====
-- The whole shape with one more child, and the branches of `add_next`.
use gempba.Base.{
  ℕ, suc, ◌≡◌, ◌≢◌, refl, sym, ◌∙◌, ap, List, [], ◌∷◌, ◌++◌, Option, none, some, inl, inr, arith,
  update, update_self, update_ne, leb, ◌==◌, Bool-cases, false, subst,
}
use mathlib.Core.List.{append_assoc}
use gempba.Tree.Nodes.{
  Tree, ok, add_next, tail_from, is_assigned, set_parent, set_left, set_right, counted, attach,
}
use gempba.Tree.Shape.{HasChildren, Shape}
use gempba.Tree.Frame.{Same}
use gempba.Tree.AddNext.{first_child, next_child}

among : (ks xs ys : List ℕ) (j i : ℕ) → ks ≡ xs ++ j ∷ ys → ks ++ i ∷ [] ≡ xs ++ j ∷ (ys ++ i ∷ [])
among ks xs ys j i e = ap (λ l. l ++ i ∷ []) e ∙ append_assoc xs (j ∷ ys) (i ∷ [])

pub update_at : (kids : ℕ → List ℕ) (p r : ℕ) (ks : List ℕ) → r ≡ p → update kids p ks r ≡ ks
update_at kids p r ks e = ap (update kids p ks) e ∙ update_self kids p ks

module _ (t : Tree) (kids : ℕ → List ℕ) (p i : ℕ) (shape : Shape t kids)
    (orphan : (t.node i).parent ≡ none) where
  pub extended-Shape :
      (t' : Tree)
      → HasChildren t' p (kids p ++ i ∷ [])
      → ((q : ℕ) → q ≢ p → HasChildren t' q (kids q))
      → (t'.node i).parent ≡ some p
      → ((k : ℕ) → k ≢ i → (t'.node k).parent ≡ (t.node k).parent)
      → ((k : ℕ) → k ≢ i → (t.node k).parent ≡ none → Same (t'.node k) (t.node k))
      → Shape t' (update kids p (kids p ++ i ∷ []))
  extended-Shape t' own others new old orphans = record {
    children = λ q. elim (Bool-cases (q == p)) [
      | inl e ↦ rw e (subst (λ r. HasChildren t' r (kids p ++ i ∷ [])) (ground arith) own)
      | inr e ↦ rw e (others q (ground arith))
    ];
    member = λ j r e. elim (Bool-cases (j == i)) [
      | inl same ↦
          let j_i : j ≡ i = ground arith in
          let r_p : r ≡ p = ground (arith, e, new, j_i, ap (λ k. (t'.node k).parent) j_i) in
          (
            kids p,
            [],
            update_at kids p r (kids p ++ i ∷ []) r_p ∙ ap (λ k. kids p ++ k ∷ []) (sym j_i),
          )
      | inr other ↦
          let (xs, ys, m) = shape.member j r (sym (old j (ground arith)) ∙ e) in
          elim (Bool-cases (r == p)) [
            | inl at ↦
                let r_p : r ≡ p = ground arith in
                (
                  xs,
                  ys ++ i ∷ [],
                  update_at kids p r (kids p ++ i ∷ []) r_p
                      ∙ among (kids p) xs ys j i (ap kids (sym r_p) ∙ m),
                )
            | inr off ↦ (xs, ys, update_ne kids p (kids p ++ i ∷ []) r (ground arith) ∙ m)
          ]
    ];
    orphan = λ j e.
        let ne : j ≢ i = λ z. ground (arith, ap (λ k. (t'.node k).parent) z) in
        let s = orphans j ne (sym (old j ne) ∙ e) in
        let o = shape.orphan j (sym (old j ne) ∙ e) in
        (s.left_sibling ∙ o.0, s.right_sibling ∙ o.1);
  }

abbrev pub adopted : Tree → ℕ → ℕ → Tree
adopted t p i = set_parent (some p) i t

adopted-count :
    (t : Tree) (p i : ℕ) → ((adopted t p i).node p).children_count ≡ (t.node p).children_count
adopted-count t p i = ground arith

adopted-next : (t : Tree) (p i : ℕ) → ((adopted t p i).node p).next ≡ (t.node p).next
adopted-next t p i = ground arith

pub adopted-Same : (t : Tree) (p i k : ℕ) → k ≢ i → Same ((adopted t p i).node k) (t.node k)
adopted-Same t p i k ne = record {
  parent = ground arith;
  left_sibling = ground arith;
  right_sibling = ground arith;
}

attach-next :
    (n k tail p i : ℕ) (u : Tree)
    → tail_from (suc n) u k ≡ some tail
    → attach (suc n) (some k) p i u
      ≡ ok (counted p i (set_right (some i) tail (set_left (some tail) i u)))
unfolding attach
attach-next n k tail p i u e = let z : (suc n == 0) ≡ false = ground arith in rw (e, z) refl

module _ (t : Tree) (p i : ℕ) (inside : leb t.size i ≡ false) (free : is_assigned t i ≡ false) where
  add_next-attach :
      (count : ℕ) (front : Option ℕ)
      → (t.node p).children_count ≡ count
      → (t.node p).next ≡ front
      → add_next p i t ≡ attach count front p i (adopted t p i)
  unfolding add_next
  add_next-attach count front e f =
      rw (inside, free)
        (ap (λ c. attach c ((adopted t p i).node p).next p i (adopted t p i))
            (adopted-count t p i ∙ e)
          ∙ ap (λ x. attach count x p i (adopted t p i)) (adopted-next t p i ∙ f))

  pub add_next-first : (t.node p).children_count ≡ 0 → add_next p i t ≡ ok (first_child p i t)
  unfolding attach
  add_next-first e = add_next-attach 0 (t.node p).next e refl ∙ refl

  pub add_next-next :
      (n k tail : ℕ)
      → (t.node p).children_count ≡ suc n
      → (t.node p).next ≡ some k
      → tail_from (suc n) (adopted t p i) k ≡ some tail
      → add_next p i t ≡ ok (next_child tail p i t)
  add_next-next n k tail e f g =
      add_next-attach (suc n) (some k) e f ∙ attach-next n k tail p i (adopted t p i) g
