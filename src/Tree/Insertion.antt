-- ===== src/Tree/Insertion.antt =====
-- What `add_next` does on a tree whose pointers describe a shape.
use gempba.Base.{
  ℕ, suc, ◌<◌, ◌≤◌, ◌≡◌, ◌≢◌, refl, sym, ◌∙◌, ap, List, [], ◌∷◌, ◌++◌, none, some, length, ◌⊎◌, inl,
  inr, arith, update, leb, Bool-cases, Option-cases, false, subst,
}
use gempba.Tree.Nodes.{make, blank, Tree, ok, thrown, add_next, tail_from, is_assigned}
use gempba.Tree.Shape.{last?, HasChildren, Shape}
use gempba.Tree.Frame.{Chain-frame, last_of_cons, tail_from_lem}
use gempba.Tree.AddNext.{
  first_child, next_child, first_child-Same, first_child-others, first_child-own, next_child-Same,
  next_child-others, next_child-own, tail_parent,
}
use gempba.Tree.Extended.{adopted, adopted-Same, extended-Shape, add_next-first, add_next-next}

module _ (t : Tree) (kids : ℕ → List ℕ) (p i : ℕ) (shape : Shape t kids)
    (inside : leb t.size i ≡ false) (orphan : (t.node i).parent ≡ none) where
  free : is_assigned t i ≡ false
  unfolding is_assigned
  free = rw (is_assigned, orphan) refl

  abbrev Added : Type 0
  Added = (t' : Tree) × (add_next p i t ≡ ok t') × Shape t' (update kids p (kids p ++ i ∷ []))

  pub first_child-Shape : kids p ≡ [] → Shape (first_child p i t) (update kids p (kids p ++ i ∷ []))
  first_child-Shape e =
      extended-Shape t kids p i shape orphan (first_child p i t)
        (subst (λ ks. HasChildren (first_child p i t) p (ks ++ i ∷ [])) (sym e)
          (first_child-own t kids p i shape orphan e))
        (first_child-others t kids p i shape orphan) (ground arith)
        (λ k ne. (first_child-Same t kids p i shape orphan k ne).parent)
        (λ k ne _. first_child-Same t kids p i shape orphan k ne)

  add_first : kids p ≡ [] → Added
  add_first e =
      let h = subst (HasChildren t p) e (shape.children p) in
      (first_child p i t, add_next-first t p i inside free h.counts, first_child-Shape e)

  next_child-new : (tail : ℕ) → ((next_child tail p i t).node i).parent ≡ some p
  next_child-new tail = ground arith

  next_child-old :
      (tail k : ℕ) → k ≢ i → ((next_child tail p i t).node k).parent ≡ (t.node k).parent
  next_child-old tail k ne = ground arith

  found_tail :
      (k tail : ℕ) (ks : List ℕ)
      → kids p ≡ k ∷ ks
      → last? (k ∷ ks) ≡ some tail
      → tail_from (suc (length ks)) (adopted t p i) k ≡ some tail
  found_tail k tail ks e l =
      let h = subst (HasChildren t p) e (shape.children p) in
      tail_from_lem (adopted t p i) p k none ks (
        Chain-frame t.node (adopted t p i).node p
          (λ j f.
            adopted-Same t p i j (λ z. ground (arith, f, orphan, ap (λ m. (t.node m).parent) z)))
          none (k ∷ ks) h.chain)
      ∙ l

  add_another : (k : ℕ) (ks : List ℕ) → kids p ≡ k ∷ ks → Added
  add_another k ks e =
      let h = subst (HasChildren t p) e (shape.children p) in
      let (tail, l) = last_of_cons k ks in
      let last = ap last? e ∙ l in
      let at = tail_parent t kids p i shape orphan tail last in
      (
        next_child tail p i t,
        add_next-next t p i inside free (length ks) k tail h.counts h.first
            (found_tail k tail ks e l),
        extended-Shape t kids p i shape orphan (next_child tail p i t)
            (subst (λ xs. HasChildren (next_child tail p i t) p (xs ++ i ∷ [])) (sym e)
              (next_child-own t kids p i shape orphan tail last k ks e))
            (next_child-others t kids p i shape orphan tail last) (next_child-new tail)
            (next_child-old tail)
            (λ j ne o.
              next_child-Same t kids p i shape orphan tail j ne (λ z. ground (arith, at.0))),
      )

  add_to : (ks : List ℕ) → kids p ≡ ks → Added
  add_to [] e = add_first e
  add_to (k ∷ ks) e = add_another k ks e

pub make-Shape : (n : ℕ) → Shape (make n) (λ _. [])
unfolding make blank
make-Shape n = record {
  children = λ p. record { first = refl; final = refl; counts = refl; chain = tt; distinct = tt };
  member = λ i p e. ground (arith, e);
  orphan = λ i e. (refl, refl);
}

-- add_next p i on a tree with the shape `kids`, for any nodes p and i: if i is a node of the vector and
-- has no parent, it succeeds and the new tree has the shape in which i stands behind the other children
-- of p; if i is out of bounds or has a parent, it throws. It never reads a null pointer, and its loop to
-- the last child ends within as many rounds as p has children.
pub add_next_lem :
    (t : Tree) (kids : ℕ → List ℕ) (p i : ℕ)
    → Shape t kids
    → ((i < t.size)
        × ((t.node i).parent ≡ none)
        × (t' : Tree) × (add_next p i t ≡ ok t')
        × Shape t' (update kids p (kids p ++ i ∷ [])))
      ⊎ (((t.size ≤ i) ⊎ ((r : ℕ) × ((t.node i).parent ≡ some r))) × (add_next p i t ≡ thrown))
unfolding add_next is_assigned
add_next_lem t kids p i shape = elim (Bool-cases (leb t.size i)) [
  | inl out ↦ inr (inl (ground arith), rw (add_next, out) refl)
  | inr inside ↦ elim (Option-cases (t.node i).parent) [
    | inr (r, e) ↦ inr (inr (r, e), rw (add_next, inside, is_assigned, e) refl)
    | inl orphan ↦
        let (t', made, there) = add_to t kids p i shape inside orphan (kids p) refl in
        inl (ground arith, orphan, t', made, there)
  ]
]
