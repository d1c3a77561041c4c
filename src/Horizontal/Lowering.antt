-- ===== src/Horizontal/Lowering.antt =====
-- What try_correct_root does to a root with one child.
use gempba.Base.{
  ℕ, zero, suc, ◌+◌, ◌≡◌, refl, sym, ◌∙◌, ap, subst, fun_ext, ◌==◌, ==_iff, ==_refl, leb,
  if◌then◌else◌, true, false, Bool-cases, ◌||◌, List, [], ◌∷◌, length, last, none, some, ◌<◌,
  update, All, inl, inr, arith,
}
use gempba.Links.Store.{Link, Store, put, elem, set_root, get_root, cleared, prune}
use gempba.Horizontal.Roots.{make_root, hand_down, lower, try_correct_root}
use gempba.Links.Distinct.{Distinct}
use gempba.Horizontal.Descent.{
  all_but_last, Descent, Descent-agree, Descent-head, elem-last, elem-all_but_last,
}

-- The new root has no parent, and the old ones are cleared.
abbrev pub lowered : ℕ → List ℕ → (ℕ → Link) → ℕ → Link
lowered root olds f x =
    if x == root then record (f x) { parent = none } else if elem x olds then cleared (f x) else f x

abbrev pub lowering : ℕ → List ℕ → ℕ → Store → Store
lowering root olds thread s = record {
  link = lowered root olds s.link;
  roots = update s.roots thread (some root);
}

prune_root :
    (i : ℕ) (s : Store) → (s.link i).parent ≡ none → prune i s ≡ put i (cleared (s.link i)) s
unfolding prune
prune_root i s root = rw (root, prune) refl

make_root_parent :
    (r n : ℕ) (s : Store)
    → (r == n) ≡ false
    → (s.link r).parent ≡ none
    → ((make_root n s).link r).parent ≡ none
unfolding make_root set_root
make_root_parent r n s differs root = ground arith

hand_down_link :
    (r n : ℕ) (s : Store) (x : ℕ)
    → (r == n) ≡ false
    → (s.link r).parent ≡ none
    → (hand_down r n s).link x ≡ lowered n (r ∷ []) s.link x
unfolding hand_down
hand_down_link r n s x differs root =
    rw (prune_root r (make_root n s) (make_root_parent r n s differs root))
      (unfold make_root set_root in (ground arith))

hand_down_roots :
    (r n : ℕ) (s : Store)
    → (r == n) ≡ false
    → (s.link r).parent ≡ none
    → (hand_down r n s).roots ≡ update s.roots (s.link n).thread_id (some n)
unfolding hand_down
hand_down_roots r n s differs root =
    rw (prune_root r (make_root n s) (make_root_parent r n s differs root))
      (unfold make_root set_root in refl)

-- One round, as a whole.
pub hand_down_lem :
    (r n t : ℕ) (s : Store)
    → (r == n) ≡ false
    → (s.link r).parent ≡ none
    → (s.link n).thread_id ≡ t
    → hand_down r n s ≡ lowering n (r ∷ []) t s
hand_down_lem r n t s differs root thread = λ i. record {
  link = fun_ext (λ x. hand_down_link r n s x differs root) i;
  roots = (hand_down_roots r n s differs root ∙ ap (λ u. update s.roots u (some n)) thread) i;
}

module _ (root n r : ℕ) (olds : List ℕ) (f : ℕ → Link) (below : elem n olds ≡ true)
    (differs : (r == n) ≡ false) (other : (r == root) ≡ false) (fresh : elem r olds ≡ false) where
  lowered_twice_above : lowered root olds (lowered n (r ∷ []) f) r ≡ lowered root (r ∷ olds) f r
  lowered_twice_above = ground arith

  lowered_twice_below : lowered root olds (lowered n (r ∷ []) f) n ≡ lowered root (r ∷ olds) f n
  lowered_twice_below = rw (==_refl n, below) (ground arith)

  lowered_twice : (x : ℕ) → lowered root olds (lowered n (r ∷ []) f) x ≡ lowered root (r ∷ olds) f x
  lowered_twice x = elim (Bool-cases (x == r)) [
    | inl same ↦
        subst (λ z. lowered root olds (lowered n (r ∷ []) f) z ≡ lowered root (r ∷ olds) f z)
          (sym ((==_iff x r).0 same)) lowered_twice_above
    | inr apart ↦ elim (Bool-cases (x == n)) [
      | inl same ↦
          subst (λ z. lowered root olds (lowered n (r ∷ []) f) z ≡ lowered root (r ∷ olds) f z)
            (sym ((==_iff x n).0 same)) lowered_twice_below
      | inr away ↦ ground arith
    ]
  ]

lowering_twice :
    (root n r t : ℕ) (olds : List ℕ) (s : Store)
    → elem n olds ≡ true
    → (r == n) ≡ false
    → (r == root) ≡ false
    → elem r olds ≡ false
    → lowering root olds t (lowering n (r ∷ []) t s) ≡ lowering root (r ∷ olds) t s
lowering_twice root n r t olds s below differs other fresh = λ i. record {
  link = fun_ext (λ x. lowered_twice root n r olds s.link below differs other fresh x) i;
  roots =
      fun_ext {f = update (update s.roots t (some n)) t (some root)}
        {g = update s.roots t (some root)} (λ u. ground arith) i;
}

-- What the round leaves to the nodes below.
below_children :
    (n r : ℕ) (f : ℕ → Link) (ns : List ℕ)
    → elem r ns ≡ false
    → All (λ i. (f i).children ≡ (lowered n (r ∷ []) f i).children) ns
below_children n r f [] fresh = tt
below_children n r f (x ∷ xs) fresh = (ground arith, below_children n r f xs (ground arith))

below_threads :
    (n r t : ℕ) (f : ℕ → Link) (ns : List ℕ)
    → All (λ i. (f i).thread_id ≡ t) ns
    → All (λ i. (lowered n (r ∷ []) f i).thread_id ≡ t) ns
below_threads n r t f [] same = tt
below_threads n r t f (x ∷ xs) same = (ground arith, below_threads n r t f xs same.1)

pub new_root_children :
    (r n : ℕ) (f : ℕ → Link) → (lowered n (r ∷ []) f n).children ≡ (f n).children
new_root_children r n f = ground arith

new_root_parent : (r n : ℕ) (f : ℕ → Link) → (lowered n (r ∷ []) f n).parent ≡ none
new_root_parent r n f = ground arith

pub lower_step :
    (p fuel r n : ℕ) (s : Store)
    → (s.link r).children ≡ n ∷ []
    → lower (suc fuel) r p s ≡ (
        if (n == p) || leb 2 (length ((hand_down r n s).link n).children)
        then some (hand_down r n s)
        else lower fuel n p (hand_down r n s))
unfolding lower
lower_step p fuel r n s one = rw (one, lower) refl

pub lower_leaf :
    (p fuel r : ℕ) (s : Store) → (s.link r).children ≡ [] → lower (suc fuel) r p s ≡ some s
unfolding lower
lower_leaf p fuel r s leaf = rw (leaf, lower) refl

module _ (p t : ℕ) where
  last_round :
      (fuel r n : ℕ) (s : Store)
      → (r == n) ≡ false
      → (s.link r).parent ≡ none
      → (s.link n).thread_id ≡ t
      → Descent s.link p r (n ∷ [])
      → lower (suc (suc fuel)) r p s ≡ some (lowering n (r ∷ []) t s)
  last_round fuel r n s differs root thread d =
      lower_step p (suc fuel) r n s d.0
      ∙ rw (hand_down_lem r n t s differs root thread) (elim d.1 [
        | inl stop ↦ rw (new_root_children r n s.link, stop) refl
        | inr leaf ↦ ground (
          arith,
          new_root_children r n s.link,
          lower_leaf p fuel n (lowering n (r ∷ []) t s) (new_root_children r n s.link ∙ leaf),
        )
      ])

  -- The loop ends, within as many rounds as there are nodes on the way, with the last one as the root.
  pub lower_lem :
      (ms : List ℕ) (fuel r n : ℕ) (s : Store)
      → length ms + 1 < fuel
      → (s.link r).parent ≡ none
      → Distinct (r ∷ n ∷ ms)
      → All (λ i. (s.link i).thread_id ≡ t) (n ∷ ms)
      → Descent s.link p r (n ∷ ms)
      → lower fuel r p s ≡ some (lowering (last n ms) (r ∷ all_but_last n ms) t s)
  lower_lem ms zero r n s h root distinct threads d = elim h [ ]
  lower_lem [] (suc zero) r n s h root distinct threads d = absurd (omega arith)
  lower_lem [] (suc (suc fuel)) r n s h root distinct threads d =
      last_round fuel r n s (ground arith) root threads.0 d
  lower_lem (m ∷ ms) (suc fuel) r n s h root distinct threads d =
      lower_step p fuel r n s d.0
      ∙ rw (hand_down_lem r n t s (ground arith) root threads.0) (
          rw (new_root_children r n s.link, Descent-head s.link p n m ms d.2, d.1)
            (lower_lem ms fuel n m (lowering n (r ∷ []) t s) (omega arith)
                (new_root_parent r n s.link) distinct.1
                (below_threads n r t s.link (m ∷ ms) threads.1)
                (Descent-agree s.link (lowering n (r ∷ []) t s).link p n (m ∷ ms)
                  (below_children n r s.link (n ∷ m ∷ ms) distinct.0) d.2)
              ∙ ap some (
                  lowering_twice (last m ms) n r t (n ∷ all_but_last m ms) s (ground arith)
                    (ground arith) (elem-last r n (m ∷ ms) distinct.0)
                    (elem-all_but_last r n (m ∷ ms) distinct.0))))

-- The root of `p` and each node on the way have one child, down to `p`, a leaf, or a node with several, all
-- of them distinct and of one thread. Then try_correct_root ends, within as many rounds as there are nodes
-- on the way and one more; the last node is the thread's root and has no parent, the nodes above it are cut
-- loose, and all else is as it was.
pub try_correct_root_lem :
    (ms : List ℕ) (fuel p r n t : ℕ) (s : Store)
    → get_root p s ≡ some r
    → length ms + 1 < fuel
    → (s.link r).parent ≡ none
    → Distinct (r ∷ n ∷ ms)
    → All (λ i. (s.link i).thread_id ≡ t) (n ∷ ms)
    → Descent s.link p r (n ∷ ms)
    → try_correct_root fuel p s ≡ some (lowering (last n ms) (r ∷ all_but_last n ms) t s)
unfolding try_correct_root
try_correct_root_lem ms fuel p r n t s up h root distinct threads d =
    rw (up, try_correct_root, Descent-head s.link p r n ms d)
      (ground (arith, lower_lem p t ms fuel r n s h root distinct threads d))
