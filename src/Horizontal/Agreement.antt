-- ===== src/Horizontal/Agreement.antt =====
-- Lowering the root keeps the links in agreement.
use gempba.Base.{
  ℕ, zero, suc, ◌≡◌, ◌⊎◌, ◌∙◌, ◌==◌, ==_refl, leb, false, ◌&&◌, ◌||◌, List, [], ◌∷◌, length, Option,
  none, some, Bool-cases, inl, inr, arith, subst, sym, refl, Option-cases,
}
use gempba.Links.Store.{Store, get_root}
use gempba.Links.Linked.{parent_of, IsLinked, parent_of-none}
use gempba.Horizontal.Roots.{hand_down, lower, try_correct_root}
use gempba.Horizontal.Lowering.{lowering, hand_down_lem, lower_step, lower_leaf}

module _ (r n : ℕ) (s : Store) (v : IsLinked s) (root : (s.link r).parent ≡ none)
    (one : (s.link r).children ≡ n ∷ []) where
  pub differs : (r == n) ≡ false
  differs = ground (arith, v.both r n, root, ==_refl n)

  module _ (t : ℕ) where
    lowering-rooted :
        (u : ℕ) → parent_of ((lowering n (r ∷ []) t s).roots u) (lowering n (r ∷ []) t s) ≡ none
    lowering-rooted u = elim (Bool-cases (u == t)) [
      | inl own ↦ rw own (ground (arith, ==_refl n))
      | inr other ↦ rw other (
          parent_of-none (s.roots u) s (lowering n (r ∷ []) t s) (λ j held was. ground arith)
            (v.rooted u))
    ]

    lowering-IsLinked : IsLinked (lowering n (r ∷ []) t s)
    lowering-IsLinked = record {
      both = λ p i.
          ground (arith, v.both p i, v.both p r, v.both p n, v.both r i, v.both r n, differs);
      distinct = λ p. ground (arith, v.distinct p);
      rooted = lowering-rooted;
    }

  pub hand_down-IsLinked : IsLinked (hand_down r n s)
  hand_down-IsLinked =
      subst IsLinked (sym (hand_down_lem r n (s.link n).thread_id s differs root refl))
        (lowering-IsLinked (s.link n).thread_id)

  pub hand_down-parent : ((hand_down r n s).link n).parent ≡ none
  hand_down-parent =
      rw (hand_down_lem r n (s.link n).thread_id s differs root refl) (ground (arith, ==_refl n))

children_cases :
    (xs : List ℕ)
    → (xs ≡ [])
      ⊎ ((n : ℕ) × (xs ≡ n ∷ []))
      ⊎ ((n : ℕ) × (m : ℕ) × (ns : List ℕ) × (xs ≡ n ∷ m ∷ ns))
children_cases [] = inl refl
children_cases (n ∷ []) = inr (inl (n, refl))
children_cases (n ∷ m ∷ ns) = inr (inr (n, m, ns, refl))

pub lower_idle :
    (fuel r p n m : ℕ) (ns : List ℕ) (s : Store)
    → (s.link r).children ≡ n ∷ m ∷ ns
    → lower (suc fuel) r p s ≡ some s
unfolding lower
lower_idle fuel r p n m ns s more = rw (more, lower) refl

module _ (p : ℕ) where
  lower-IsLinked :
      (fuel r : ℕ) {s t : Store}
      → IsLinked s
      → (s.link r).parent ≡ none
      → lower fuel r p s ≡ some t
      → IsLinked t
  unfolding lower
  lower-IsLinked zero r v root h = cc
  lower-IsLinked (suc fuel) r {s} v root h = elim (children_cases (s.link r).children) [
    | inl leaf ↦ subst IsLinked (let e = lower_leaf p fuel r s leaf in cc) v
    | inr (inl (n, one)) ↦
        let e = lower_step p fuel r n s one in
        elim (Bool-cases ((n == p) || leb 2 (length ((hand_down r n s).link n).children))) [
          | inl stop ↦ subst IsLinked (ground arith) (hand_down-IsLinked r n s v root one)
          | inr further ↦
              lower-IsLinked fuel n (hand_down-IsLinked r n s v root one)
                (hand_down-parent r n s v root one) (sym (rw further at e) ∙ h)
        ]
    | inr (inr (n, m, ns, more)) ↦
        subst IsLinked (let e = lower_idle fuel r p n m ns s more in cc) v
  ]

pub root-parent :
    (o : Option ℕ) (r : ℕ) (s : Store)
    → parent_of o s ≡ none
    → o ≡ some r
    → (s.link r).parent ≡ none
root-parent o r s h e = rw e at h

get_root-parent :
    (p r : ℕ) (s : Store) → IsLinked s → get_root p s ≡ some r → (s.link r).parent ≡ none
unfolding get_root
get_root-parent p r s v up = elim (Option-cases (s.link p).root) [
  | inl loose ↦ let e : none ≡ some r = rw (loose, get_root) at up in cc
  | inr (t, cell) ↦
      let e : s.roots t ≡ some r = rw (cell, get_root) at up in
      root-parent (s.roots t) r s (v.rooted t) e
]

-- Whatever the root and its children are, try_correct_root leaves the links in agreement.
pub try_correct_root-IsLinked :
    (fuel p : ℕ) {s t : Store} → IsLinked s → try_correct_root fuel p s ≡ some t → IsLinked t
unfolding try_correct_root
try_correct_root-IsLinked fuel p {s} {t} v h = elim (Option-cases (get_root p s)) [
  | inl nowhere ↦
      let same : some s ≡ some t = rw (nowhere, try_correct_root) at h in subst IsLinked (cc) v
  | inr (r, up) ↦
      let e = rw (up, try_correct_root) at h in
      elim (Bool-cases ((r == p) && (length (s.link r).children == 0))) [
        | inl leaf ↦ subst IsLinked (ground arith) v
        | inr inner ↦ elim (Bool-cases (leb 2 (length (s.link r).children))) [
          | inl busy ↦ subst IsLinked (ground arith) v
          | inr thin ↦ lower-IsLinked p fuel r v (get_root-parent p r s v up) (ground arith)
        ]
      ]
]
