-- ===== src/Horizontal/Parting.antt =====
-- A root gives way to its one child, or loses a pending child: what is left is again such a way down.
use gempba.Base.{
  ℕ, ◌≡◌, refl, sym, ◌∙◌, subst, ◌==◌, ==_iff, ==_refl, Bool, true, false, Bool-cases, ◌&&◌, not,
  List, [], ◌∷◌, none, some, inl, inr, arith,
}
use gempba.Links.Store.{Store, put, elem, cleared, prune, remove_child}
use gempba.Links.Distinct.{Distinct}
use gempba.Links.Linked.{prune-IsLinked}
use gempba.Horizontal.Roots.{hand_down}
use gempba.Horizontal.Lowering.{lowered, hand_down_lem}
use gempba.Horizontal.Agreement.{differs, hand_down-IsLinked}
use gempba.Horizontal.Spine.{
  Levels, Spine, Kept, All-kept, Spine-agree, Spine-thread, IsHeld, IsHeld-parent, child-parent,
  prune_child, remove_absent,
}

module _ (t p r n : ℕ) (levels : Levels) (s : Store) (h : IsHeld t p r ((n, []) ∷ levels) s) where
  away-Kept : (x : ℕ) → not (x == r) ≡ true → Kept (s.link x) (lowered n (r ∷ []) s.link x)
  away-Kept x a = ground arith

  inherits :
      (x z : ℕ) → not (x == r) ≡ true → elem z (s.link x).children ≡ true → not (z == r) ≡ true
  inherits x z a e = elim (Bool-cases (z == r)) [
    | inl same ↦
        let q =
          subst (λ y. (s.link y).parent ≡ none) (sym ((==_iff z r).0 same)) (IsHeld-parent h) in
        ground (arith, h.linked.both x z)
    | inr other ↦ rw other refl
  ]

  pub hand_down-IsHeld : IsHeld t p n levels (hand_down r n s)
  hand_down-IsHeld =
      let d = differs r n s h.linked (IsHeld-parent h) h.path.1 in
      let e =
        hand_down_lem r n t s d (IsHeld-parent h) (Spine-thread s.link t p n levels h.path.3).1 in
      record {
        linked = hand_down-IsLinked r n s h.linked (IsHeld-parent h) h.path.1;
        top = rw e (ground (arith, ==_refl t));
        path = rw e (
            Spine-agree s.link (lowered n (r ∷ []) s.link) (λ x. not (x == r)) away-Kept t p n
              levels inherits (ground arith) h.path.3);
      }

module _ (t p r n c : ℕ) (cs : List ℕ) (levels : Levels) (s : Store)
    (h : IsHeld t p r ((n, c ∷ cs) ∷ levels) s) where
  pending_parent : (s.link c).parent ≡ some r
  pending_parent = child-parent r c s h.linked (rw h.path.1 (ground (arith, ==_refl c)))

  pub first_parent : (s.link n).parent ≡ some r
  first_parent = child-parent r n s h.linked (rw h.path.1 (ground (arith, ==_refl n)))

  abbrev parted : Store
  parted = put c (cleared ((remove_child r c s).link c)) (remove_child r c s)

  prune_lem : prune c s ≡ parted
  prune_lem = prune_child c r s pending_parent

  pub parent_apart : (z q : ℕ) → (s.link z).parent ≡ some q → (z == r) ≡ false
  parent_apart z q e = elim (Bool-cases (z == r)) [
    | inl same ↦
        let none_there =
          subst (λ y. (s.link y).parent ≡ none) (sym ((==_iff z r).0 same)) (IsHeld-parent h) in
        cc
    | inr other ↦ other
  ]

  distinct_siblings : ((n == c) ≡ false) × (elem c cs ≡ false)
  distinct_siblings = let d = subst Distinct h.path.1 (h.linked.distinct r) in (ground arith, d.1.0)

  abbrev away : ℕ → Bool
  away x = not (x == r) && not (x == c)

  parted-Kept : (x : ℕ) → away x ≡ true → Kept (s.link x) (parted.link x)
  unfolding remove_child
  parted-Kept x a = ground arith

  parted_inherits : (x z : ℕ) → away x ≡ true → elem z (s.link x).children ≡ true → away z ≡ true
  parted_inherits x z a e =
      let up = child-parent x z s h.linked e in
      let low = parent_apart z x up in
      elim (Bool-cases (z == c)) [
        | inl same ↦
            let two =
              subst (λ y. (s.link y).parent ≡ some r) (sym ((==_iff z c).0 same)) pending_parent in
            ground arith
        | inr other ↦ ground arith
      ]

  parted_root :
      Kept (s.link r) (record (parted.link r) { children = (s.link r).children })
      × ((parted.link r).children ≡ n ∷ cs)
  unfolding remove_child
  parted_root =
      let low = parent_apart c r pending_parent in
      (ground arith, ground (arith, h.path.1, distinct_siblings, remove_absent c cs, ==_refl c))

  sibling_away : (z : ℕ) → elem z cs ≡ true → away z ≡ true
  sibling_away z e =
      let low = parent_apart z r (child-parent r z s h.linked (rw h.path.1 (ground arith))) in
      elim (Bool-cases (z == c)) [
        | inl same ↦
            let two = subst (λ y. elem y cs ≡ true) ((==_iff z c).0 same) e in
            ground (arith, distinct_siblings)
        | inr other ↦ ground arith
      ]

  pub prune-IsHeld : IsHeld t p r ((n, cs) ∷ levels) (prune c s)
  prune-IsHeld = record {
    linked = prune-IsLinked c s h.linked h.path.2.0;
    top = rw prune_lem (unfold remove_child in h.top);
    path =
        subst (λ u. Spine u.link t p r ((n, cs) ∷ levels)) (sym prune_lem)
          (let k = parted_root in
            (
              (k.0.0 ∙ h.path.0.0, k.0.1 ∙ h.path.0.1),
              k.1,
              All-kept s.link parted.link away parted-Kept cs sibling_away h.path.2.1,
              Spine-agree s.link parted.link away parted-Kept t p n levels parted_inherits
                  (let low = parent_apart n r first_parent in ground (arith, distinct_siblings))
                  h.path.3,
            ));
  }
