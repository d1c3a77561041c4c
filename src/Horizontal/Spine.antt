-- ===== src/Horizontal/Spine.antt =====
-- The way down from a root to a node, with what is pending on each level.
use gempba.Base.{
  ℕ, ◌≡◌, refl, ◌∙◌, ap, subst, ==_iff, ==_refl, Bool, true, false, List, [], ◌∷◌, Option, none,
  some, All, arith,
}
use gempba.Links.Store.{
  Link, Store, put, elem, remove, points_to, get_root, cleared, prune, remove_child,
}
use gempba.Links.Linked.{IsLinked}
use gempba.Horizontal.Agreement.{root-parent}

-- A level is a node of the way with the pending siblings to its right.
abbrev pub Levels : Type 0
Levels = List (ℕ × List ℕ)

abbrev pub OnThread : ℕ → Link → Type 0
OnThread t l = (l.root ≡ some t) × (l.thread_id ≡ t)

-- From `r` down to `p`, which has no children; nor has any pending node.
abbrev pub Spine : (ℕ → Link) → ℕ → ℕ → ℕ → Levels → Type 0
Spine f t p r [] = (r ≡ p) × OnThread t (f r) × ((f r).children ≡ [])
Spine f t p r ((n, pending) ∷ levels) =
    OnThread t (f r)
    × ((f r).children ≡ n ∷ pending)
    × All (λ i. (f i).children ≡ []) pending
    × Spine f t p n levels

abbrev pub Kept : Link → Link → Type 0
Kept l k = (k.root ≡ l.root) × (k.thread_id ≡ l.thread_id) × (k.children ≡ l.children)

module _ (f g : ℕ → Link) (away : ℕ → Bool)
    (kept : (x : ℕ) → away x ≡ true → Kept (f x) (g x)) where
  pub All-kept :
      (xs : List ℕ)
      → ((z : ℕ) → elem z xs ≡ true → away z ≡ true)
      → All (λ i. (f i).children ≡ []) xs
      → All (λ i. (g i).children ≡ []) xs
  All-kept [] h a = tt
  All-kept (x ∷ xs) h a = (
    (kept x (h x (ground (arith, ==_refl x)))).2 ∙ a.0,
    All-kept xs (λ z e. h z (ground arith)) a.1,
  )

  pub Spine-agree :
      (t p x : ℕ) (levels : Levels)
      → ((x z : ℕ) → away x ≡ true → elem z (f x).children ≡ true → away z ≡ true)
      → away x ≡ true
      → Spine f t p x levels
      → Spine g t p x levels
  Spine-agree t p x [] inherits a h =
      let k = kept x a in (h.0, (k.0 ∙ h.1.0, k.1 ∙ h.1.1), k.2 ∙ h.2)
  Spine-agree t p x ((n, pending) ∷ levels) inherits a h =
      let k = kept x a in
      (
        (k.0 ∙ h.0.0, k.1 ∙ h.0.1),
        k.2 ∙ h.1,
        All-kept pending (λ z e. inherits x z a (rw h.1 (ground arith))) h.2,
        Spine-agree t p n levels inherits (inherits x n a (rw h.1 (ground (arith, ==_refl n)))) h.3,
      )

pub Spine-thread :
    (f : ℕ → Link) (t p r : ℕ) (levels : Levels) → Spine f t p r levels → OnThread t (f r)
Spine-thread f t p r [] h = h.1
Spine-thread f t p r ((n, pending) ∷ levels) h = h.0

pub Spine-leaf :
    (f : ℕ → Link) (t p r : ℕ) (levels : Levels) → Spine f t p r levels → (f p).children ≡ []
Spine-leaf f t p r [] h = subst (λ x. (f x).children ≡ []) h.0 h.2
Spine-leaf f t p r ((n, pending) ∷ levels) h = Spine-leaf f t p n levels h.3

pub Spine-last :
    (f : ℕ → Link) (t p r : ℕ) (levels : Levels) → Spine f t p r levels → OnThread t (f p)
Spine-last f t p r [] h = subst (λ x. OnThread t (f x)) h.0 h.1
Spine-last f t p r ((n, pending) ∷ levels) h = Spine-last f t p n levels h.3

-- The tree of the thread `t`, as it stands around the node `p`.
pub record IsHeld (t p r : ℕ) (levels : Levels) (s : Store) : Type 0 where
  pub linked : IsLinked s
  pub top : s.roots t ≡ some r
  pub path : Spine s.link t p r levels

pub IsHeld-parent :
    {t p r : ℕ} {levels : Levels} {s : Store} → IsHeld t p r levels s → (s.link r).parent ≡ none
IsHeld-parent {t} {p} {r} {levels} {s} h = root-parent (s.roots t) r s (h.linked.rooted t) h.top

pub IsHeld-get_root :
    {t p r : ℕ} {levels : Levels} {s : Store} → IsHeld t p r levels s → get_root p s ≡ some r
unfolding get_root
IsHeld-get_root {t} {p} {r} {levels} {s} h =
    rw ((Spine-last s.link t p r levels h.path).0, get_root) h.top

points_to→eq : (o : Option ℕ) (r : ℕ) → points_to o r ≡ true → o ≡ some r
points_to→eq none r h = cc
points_to→eq (some j) r h = ap some ((==_iff j r).0 h)

pub child-parent :
    (x z : ℕ) (s : Store)
    → IsLinked s
    → elem z (s.link x).children ≡ true
    → (s.link z).parent ≡ some x
child-parent x z s v e = points_to→eq (s.link z).parent x (v.both x z ∙ e)

pub prune_child :
    (i r : ℕ) (s : Store)
    → (s.link i).parent ≡ some r
    → prune i s ≡ put i (cleared ((remove_child r i s).link i)) (remove_child r i s)
unfolding prune
prune_child i r s h =
    ap
      (λ (o : Option ℕ).
        let t : Store = elim o [
          | none ↦ put i (cleared (s.link i)) s
          | some q ↦ put i (cleared ((remove_child q i s).link i)) (remove_child q i s)
        ] in
        t)
      h

pub remove_absent : (x : ℕ) (xs : List ℕ) → elem x xs ≡ false → remove x xs ≡ xs
remove_absent x [] h = refl
remove_absent x (y ∷ ys) h = ground (arith, remove_absent x ys)
