-- ===== src/Tree/Front.antt =====
-- The laws of `pop_front` and `clear`.
use gempba.Base.{
  fun_ext, ℕ, suc, ◌≡◌, refl, sym, ◌∙◌, ap, List, [], ◌∷◌, some, length, ◌⊎◌, inl, inr, arith,
  update, update_self, update_ne, ◌==◌, Bool-cases, subst,
}
use gempba.Tree.Extended.{update_at}
use gempba.Tree.Nodes.{Tree, ok, thrown, pop_front, pop_from, clear}
use gempba.Tree.Shape.{head?, Shape}
use gempba.Tree.Removal.{
  only_left, first_left, only_left-Same, pop_front-only, first_left-front, first_left-parent,
  pop_front-first,
}
use gempba.Tree.Popping.{
  before, without-Shape, only-own, only-others, only-gone, first-Same, first-own, first-others,
}

module _ (t : Tree) (kids : ℕ → List ℕ) (p : ℕ) (shape : Shape t kids) where
  abbrev Popped : List ℕ → Type 0
  Popped ks = (t' : Tree) × (pop_front p t ≡ ok t') × Shape t' (update kids p ks)

  pop_only : (k : ℕ) → kids p ≡ k ∷ [] → Popped []
  pop_only k e =
      let h = before t kids p k [] shape e in
      (
        only_left p k t,
        pop_front-only t p k h.first h.chain.2,
        without-Shape t kids p k [] shape e (only_left p k t) (only-own t kids p k [] shape e refl)
            (only-others t kids p k [] shape e) (only-gone t kids p k [] shape e refl)
            (λ j ne. (only_left-Same t p k j ne).parent) (λ j ne _. only_left-Same t p k j ne),
      )

  pop_first : (k l : ℕ) (ls : List ℕ) → kids p ≡ k ∷ l ∷ ls → Popped (l ∷ ls)
  pop_first k l ls e =
      let h = before t kids p k (l ∷ ls) shape e in
      (
        first_left p k l t,
        pop_front-first t p k l h.first h.chain.2,
        without-Shape t kids p k (l ∷ ls) shape e (first_left p k l t)
            (first-own t kids p k (l ∷ ls) shape e l ls refl)
            (first-others t kids p k (l ∷ ls) shape e l ls refl) (first_left-front t p k l)
            (λ j ne. first_left-parent t p k l j ne)
            (λ j ne o.
              first-Same t kids p k (l ∷ ls) shape e l j ne
                (λ z. ground (arith, h.chain.3.0, ap (λ m. (t.node m).parent) z))),
      )

  pop_some : (k : ℕ) (ks : List ℕ) → kids p ≡ k ∷ ks → Popped ks
  pop_some k [] e = pop_only k e
  pop_some k (l ∷ ls) e = pop_first k l ls e

  pop_none : kids p ≡ [] → pop_front p t ≡ thrown
  unfolding pop_front pop_from
  pop_none e = ap (λ x. pop_from x p t) ((shape.children p).first ∙ ap head? e)

  pop_by :
      (ks : List ℕ)
      → kids p ≡ ks
      → ((k : ℕ) × (js : List ℕ) × (kids p ≡ k ∷ js) × Popped js)
        ⊎ ((kids p ≡ []) × (pop_front p t ≡ thrown))
  pop_by [] e = inr (e, pop_none e)
  pop_by (k ∷ ks) e = inl (k, ks, e, pop_some k ks e)

-- pop_front p on a tree with the shape `kids`: if p has children, it succeeds, and the new tree has the
-- shape in which p has lost the first of them and nothing else is changed; if p has none, it throws.
pub pop_front_lem :
    (t : Tree) (kids : ℕ → List ℕ) (p : ℕ)
    → Shape t kids
    → ((k : ℕ) × (ks : List ℕ) × (kids p ≡ k ∷ ks)
        × ((t' : Tree) × (pop_front p t ≡ ok t') × Shape t' (update kids p ks)))
      ⊎ ((kids p ≡ []) × (pop_front p t ≡ thrown))
pop_front_lem t kids p shape = pop_by t kids p shape (kids p) refl

update_same : (f : ℕ → List ℕ) (p : ℕ) (ks : List ℕ) → f p ≡ ks → f ≡ update f p ks
update_same f p ks e = fun_ext (λ j. elim (Bool-cases (j == p)) [
  | inl at ↦ let j_p : j ≡ p = ground arith in ap f j_p ∙ e ∙ sym (update_at f p j ks j_p)
  | inr off ↦ sym (update_ne f p ks j (ground arith))
])

update_twice :
    (f : ℕ → List ℕ) (p : ℕ) (ks js : List ℕ) → update (update f p ks) p js ≡ update f p js
update_twice f p ks js = fun_ext (λ j. ground arith)

clear_by :
    (ks : List ℕ) (t : Tree) (kids : ℕ → List ℕ) (p : ℕ)
    → Shape t kids
    → kids p ≡ ks
    → (t' : Tree) × (clear (suc (length ks)) p t ≡ some (ok t')) × Shape t' (update kids p [])
unfolding clear
clear_by [] t kids p shape e =
    let none_left = (shape.children p).first ∙ ap head? e in
    (t, rw (clear, none_left) refl, subst (Shape t) (update_same kids p [] e) shape)
clear_by (k ∷ ks) t kids p shape e =
    let next = (shape.children p).first ∙ ap head? e in
    let (t1, popped, left) = pop_some t kids p shape k ks e in
    let (t', cleared, there) = clear_by ks t1 (update kids p ks) p left (update_self kids p ks) in
    (t', rw (clear, next, popped) cleared, subst (Shape t') (update_twice kids p ks []) there)

-- clear on node p of a tree with the shape `kids`, with fuel for each child of p and one round more:
-- the loop ends without an exception, and the new tree has the shape in which p has no children and
-- nothing else is changed.
pub clear_lem :
    (t : Tree) (kids : ℕ → List ℕ) (p : ℕ)
    → Shape t kids
    → (t' : Tree) × (clear (suc (length (kids p))) p t ≡ some (ok t')) × Shape t' (update kids p [])
clear_lem t kids p shape = clear_by (kids p) t kids p shape refl
