-- ===== src/Horizontal/Order.antt =====
-- The order in which `send` hands the nodes over.
use gempba.Base.{
  ℕ, ◌≤◌, ◌≡◌, refl, subst, ◌==◌, ==_refl, leb, Bool, true, false, List, [], ◌∷◌, ◌++◌, length,
  length-append, none, some, arith,
}
use gempba.Links.Store.{Store, get_root, prune}
use gempba.Links.Linked.{IsLinked}
use gempba.Horizontal.Sending.{get_root_level_pending_node}
use gempba.Horizontal.Spine.{Levels, Spine, child-parent}
use gempba.Horizontal.Trimming.{skip_idle}

-- The pending nodes from the top level down, each level from the left, but those beside `p`; `p` last.
abbrev pub order : ℕ → Levels → List ℕ
order p [] = p ∷ []
order p (level ∷ []) = p ∷ []
order p ((n, pending) ∷ below ∷ levels) = pending ++ order p (below ∷ levels)

-- The root has been corrected: something is pending on its level, or `p` stands there.
abbrev pub corrected : Levels → Bool
corrected [] = true
corrected (level ∷ []) = true
corrected ((n, []) ∷ below ∷ levels) = false
corrected ((n, c ∷ cs) ∷ below ∷ levels) = true

pub order-skip_idle : (p r : ℕ) (levels : Levels) → order p (skip_idle r levels).1 ≡ order p levels
order-skip_idle p r [] = refl
order-skip_idle p r ((n, []) ∷ []) = refl
order-skip_idle p r ((n, []) ∷ below ∷ levels) = order-skip_idle p n (below ∷ levels)
order-skip_idle p r ((n, c ∷ cs) ∷ levels) = refl

pub order-nonempty : (p : ℕ) (levels : Levels) → leb (length (order p levels)) 0 ≡ false
order-nonempty p [] = refl
order-nonempty p (level ∷ []) = refl
order-nonempty p ((n, pending) ∷ below ∷ levels) =
    ground
      (arith, order-nonempty p (below ∷ levels), length-append pending (order p (below ∷ levels)))

pub corrected-skip_idle : (r : ℕ) (levels : Levels) → corrected (skip_idle r levels).1 ≡ true
corrected-skip_idle r [] = refl
corrected-skip_idle r ((n, []) ∷ levels) = corrected-skip_idle n levels
corrected-skip_idle r ((n, c ∷ cs) ∷ []) = refl
corrected-skip_idle r ((n, c ∷ cs) ∷ below ∷ levels) = refl

pub length-skip_idle : (r : ℕ) (levels : Levels) → length (skip_idle r levels).1 ≤ length levels
length-skip_idle r [] = omega arith
length-skip_idle r ((n, []) ∷ levels) = omega (arith, length-skip_idle n levels)
length-skip_idle r ((n, c ∷ cs) ∷ levels) = omega arith

-- The parent of `p` is not the root where two levels or more are between.
pub deep_parent :
    (t p x n : ℕ) (pending : List ℕ) (levels : Levels) (s : Store)
    → IsLinked s
    → (u : ℕ) × ((s.link x).parent ≡ some u)
    → Spine s.link t p x ((n, pending) ∷ levels)
    → (q : ℕ) × ((s.link p).parent ≡ some q) × ((u : ℕ) × ((s.link q).parent ≡ some u))
deep_parent t p x n pending [] s v up h = (
  x,
  subst (λ y. (s.link y).parent ≡ some x) h.3.0
      (child-parent x n s v (rw h.1 (ground (arith, ==_refl n)))),
  up,
)
deep_parent t p x n pending ((m, below) ∷ levels) s v up h =
    deep_parent t p n m below levels s v
      (x, child-parent x n s v (rw h.1 (ground (arith, ==_refl n)))) h.3

module _ (p r : ℕ) (s : Store) where
  pub no_parent : (s.link p).parent ≡ none → get_root_level_pending_node p s ≡ (none, s)
  unfolding get_root_level_pending_node
  no_parent e = rw (e, get_root_level_pending_node) refl

  pub top_level :
      (s.link p).parent ≡ some r
      → get_root p s ≡ some r
      → get_root_level_pending_node p s ≡ (none, s)
  unfolding get_root_level_pending_node
  top_level e up = rw (e, get_root_level_pending_node, up, ==_refl r) refl

  pub second_child :
      (q n c : ℕ) (cs : List ℕ)
      → (s.link p).parent ≡ some q
      → get_root p s ≡ some r
      → (q == r) ≡ false
      → (s.link r).children ≡ n ∷ c ∷ cs
      → get_root_level_pending_node p s ≡ (some c, prune c s)
  unfolding get_root_level_pending_node
  second_child q n c cs e up apart children =
      rw (e, get_root_level_pending_node, up, apart, children) refl
