-- ===== src/Links/Linked.antt =====
-- The links of the store agree with one another, whatever is done to them.
use gempba.Base.{
  ℕ, ◌≡◌, Option-cases, inl, inr, ==_refl, true, false, [], Option, none, some, arith,
}
use gempba.Links.Store.{Store, put, elem, points_to, remove_child, cleared, prune}
use gempba.Links.Distinct.{Distinct, elem-remove, Distinct-remove}

abbrev pub parent_of : Option ℕ → Store → Option ℕ
parent_of none s = none
parent_of (some i) s = (s.link i).parent

-- A node is a child of its parent, and of no other, once; the root of a thread has no parent.
pub record IsLinked (s : Store) : Type 0 where
  pub both : (p i : ℕ) → points_to (s.link i).parent p ≡ elem i (s.link p).children
  pub distinct : (p : ℕ) → Distinct (s.link p).children
  pub rooted : (t : ℕ) → parent_of (s.roots t) s ≡ none

-- An address that no node has yet.
pub record IsFresh (i : ℕ) (s : Store) : Type 0 where
  pub orphan : (s.link i).parent ≡ none
  pub childless : (s.link i).children ≡ []
  pub unheld : (t : ℕ) → points_to (s.roots t) i ≡ false

-- A root stays one where its parent stays none.
pub parent_of-none :
    (o : Option ℕ) (s t : Store)
    → ((j : ℕ) → points_to o j ≡ true → (s.link j).parent ≡ none → (t.link j).parent ≡ none)
    → parent_of o s ≡ none
    → parent_of o t ≡ none
parent_of-none none s t keep h = h
parent_of-none (some j) s t keep h = keep j (==_refl j) h

module _ (i : ℕ) (s : Store) (v : IsLinked s) (leaf : (s.link i).children ≡ []) where
  pub prune-IsLinked : IsLinked (prune i s)
  unfolding prune remove_child
  prune-IsLinked = elim (Option-cases (s.link i).parent) [
    | inl root ↦
        rw (root, prune)
          record {
            both = λ q j. ground (arith, v.both q j, v.both q i, v.both i j);
            distinct = λ q. ground (arith, v.distinct q);
            rooted = λ t.
                parent_of-none (s.roots t) s (put i (cleared (s.link i)) s)
                  (λ j held was. ground arith) (v.rooted t);
          }
    | inr (p, child) ↦
        rw (child, prune)
          record {
            both = λ q j.
                ground
                  (arith, v.both q j, v.both q i, v.both i j, elem-remove j i (s.link p).children);
            distinct = λ q.
                ground (arith, v.distinct q, Distinct-remove i (s.link p).children, v.distinct p);
            rooted = λ t.
                parent_of-none (s.roots t) s
                  (put i (cleared ((remove_child p i s).link i)) (remove_child p i s))
                  (λ j held was. ground arith) (v.rooted t);
          }
  ]
