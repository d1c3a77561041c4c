-- ===== src/Horizontal/Fixing.antt =====
-- The node itself is taken off the tree: prune_and_fix_parent_root_if_needed ends, and raises nothing.
use gempba.Base.{
  ℕ, zero, suc, ◌<◌, ◌≡◌, refl, ◌∙◌, ap, subst, ◌==◌, ==_iff, ==_refl, leb, true, false, Bool-cases,
  ◌||◌, List, [], ◌∷◌, length, none, some, All, inl, inr, arith,
}
use gempba.Links.Store.{Store, put, remove, get_root, cleared, remove_child}
use gempba.Links.Distinct.{Distinct}
use gempba.Links.Linked.{IsLinked, prune-IsLinked}
use gempba.Horizontal.Roots.{hand_down, lower, try_correct_root}
use gempba.Horizontal.Lowering.{hand_down_lem, new_root_children, lower_step, lower_leaf}
use gempba.Horizontal.Agreement.{differs}
use gempba.Horizontal.Sending.{answered}
use gempba.Horizontal.Submission.{correct_from, prune_and_fix_parent_root_if_needed}
use gempba.Horizontal.Spine.{
  Spine-leaf, IsHeld, IsHeld-parent, IsHeld-get_root, child-parent, prune_child, remove_absent,
}
use gempba.Horizontal.Trimming.{inner_apart}

abbrev pub Fixes : ℕ → ℕ → Store → Type 0
Fixes fuel p s = (t : Store) × (prune_and_fix_parent_root_if_needed fuel p s ≡ (t, answered true))

pub leaf_root-Fixes : (fuel t p r : ℕ) (s : Store) → IsHeld t p r [] s → Fixes fuel p s
unfolding prune_and_fix_parent_root_if_needed
leaf_root-Fixes fuel t p r s h =
    let own : get_root p s ≡ some p = IsHeld-get_root h ∙ ap some h.path.0 in
    (s, rw (own, ==_refl p, Spine-leaf s.link t p r [] h.path) refl)

-- A root with at most one child, a leaf.
module _ (r : ℕ) (s : Store) (v : IsLinked s) (root : (s.link r).parent ≡ none)
    (own : get_root r s ≡ some r) where
  below_leaf :
      (x : ℕ)
      → (s.link r).children ≡ x ∷ []
      → (s.link x).children ≡ []
      → ((hand_down r x s).link x).children ≡ []
  below_leaf x one leaf =
      rw (hand_down_lem r x (s.link x).thread_id s (differs r x s v root one) root refl)
        (new_root_children r x s.link ∙ leaf)

  leaf_below :
      (fuel x : ℕ)
      → (s.link r).children ≡ x ∷ []
      → (s.link x).children ≡ []
      → lower (suc (suc fuel)) r r s ≡ some (hand_down r x s)
  leaf_below fuel x one leaf =
      lower_step r (suc fuel) r x s one
      ∙ elim (Bool-cases ((x == r) || leb 2 (length ((hand_down r x s).link x).children))) [
        | inl stop ↦ rw stop refl
        | inr further ↦ rw further (lower_leaf r fuel x (hand_down r x s) (below_leaf x one leaf))
      ]

  corrects :
      (fuel : ℕ) (pending : List ℕ)
      → 2 < fuel
      → (s.link r).children ≡ pending
      → All (λ i. (s.link i).children ≡ []) pending
      → (u : Store) × (try_correct_root fuel r s ≡ some u)
  unfolding try_correct_root
  corrects fuel [] e c leaves = (s, rw (own, try_correct_root, c, ==_refl r) refl)
  corrects zero (x ∷ []) e c leaves = elim e [ ]
  corrects (suc zero) (x ∷ []) e c leaves = absurd (omega arith)
  corrects (suc (suc fuel)) (x ∷ []) e c leaves =
      (hand_down r x s, rw (own, try_correct_root, ==_refl r, c) (leaf_below fuel x c leaves.0))
  corrects fuel (x ∷ y ∷ ys) e c leaves =
      (s, rw (own, try_correct_root, ==_refl r, c) (ground arith))

-- The node is the leftmost child of the root.
module _ (t p r : ℕ) (pending : List ℕ) (s : Store) (h : IsHeld t p r ((p, pending) ∷ []) s) where
  pub own_parent : (s.link p).parent ≡ some r
  own_parent = child-parent r p s h.linked (rw h.path.1 (ground (arith, ==_refl p)))

  abbrev freed : Store
  freed = put p (cleared ((remove_child r p s).link p)) (remove_child r p s)

  apart : (r == p) ≡ false
  apart = inner_apart t p r p pending [] s h

  freed_leaves :
      (xs : List ℕ)
      → All (λ i. (s.link i).children ≡ []) xs
      → All (λ i. (freed.link i).children ≡ []) xs
  unfolding remove_child
  freed_leaves [] a = tt
  freed_leaves (x ∷ xs) a = elim (Bool-cases (x == r)) [
    | inl same ↦
        let none_there = subst (λ y. (s.link y).children ≡ []) ((==_iff x r).0 same) a.0 in
        let one = h.path.1 in cc
    | inr other ↦ (ground arith, freed_leaves xs a.1)
  ]

  freed_link : freed.link r ≡ record (s.link r) { children = remove p (s.link r).children }
  unfolding remove_child
  freed_link = let a = apart in ground arith

  freed_children : (freed.link r).children ≡ pending
  freed_children =
      ap (λ l. l.children) freed_link
      ∙ rw h.path.1 (
          ground (
            arith,
            ==_refl p,
            remove_absent p pending,
            subst Distinct h.path.1 (h.linked.distinct r),
          ))

  freed_root : get_root r freed ≡ some r
  unfolding remove_child get_root
  freed_root = rw (ap (λ l. l.root) freed_link ∙ h.path.0.0, get_root) h.top

  freed-IsLinked : IsLinked freed
  freed-IsLinked =
      subst IsLinked (prune_child p r s own_parent) (prune-IsLinked p s h.linked h.path.3.2)

  fixed_with :
      (fuel : ℕ) (u : Store)
      → try_correct_root fuel r freed ≡ some u
      → prune_and_fix_parent_root_if_needed fuel p s ≡ (u, answered true)
  unfolding prune_and_fix_parent_root_if_needed
  fixed_with fuel u fine =
      rw (IsHeld-get_root h, apart, prune_child p r s own_parent)
        (ap (λ o. correct_from fuel o freed) own_parent ∙ rw (fine, correct_from) refl)

  pub leftmost-Fixes : (fuel : ℕ) → 2 < fuel → Fixes fuel p s
  leftmost-Fixes fuel e =
      let (u, fine) =
        corrects r freed freed-IsLinked (ap (λ l. l.parent) freed_link ∙ IsHeld-parent h) freed_root
          fuel pending e freed_children (freed_leaves pending h.path.2) in
      (u, fixed_with fuel u fine)
