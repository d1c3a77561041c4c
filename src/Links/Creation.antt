-- ===== src/Links/Creation.antt =====
-- A new node keeps the links in agreement, and its parent takes it as the last child.
use gempba.Base.{
  ℕ, ◌≡◌, subst, fun_ext, sym, refl, inl, inr, ◌==◌, ==_refl, Bool, true, false, ◌||◌, [], ◌∷◌,
  ◌++◌, Option, none, some, Bool-cases, arith,
}
use gempba.Links.Store.{
  Link, Store, put, elem, set_root, cell, attach, adopt, set_parent, blank, create,
}
use gempba.Links.Distinct.{elem-snoc, Distinct-snoc}
use gempba.Links.Linked.{parent_of, IsLinked, IsFresh, parent_of-none}

module _ (i thread : ℕ) (dummy : Bool) (s : Store) (v : IsLinked s) (f : IsFresh i s) where
  abbrev new_root : Store
  new_root = put i (record (blank thread dummy) { root = some thread }) (set_root thread i s)

  new_root-rooted : (t : ℕ) → parent_of (new_root.roots t) new_root ≡ none
  unfolding set_root
  new_root-rooted t = elim (Bool-cases (t == thread)) [
    | inl own ↦ rw own (ground (arith, ==_refl i))
    | inr other ↦
        rw other (parent_of-none (s.roots t) s new_root (λ j held was. ground arith) (v.rooted t))
  ]

  new_root-IsLinked : IsLinked new_root
  unfolding set_root
  new_root-IsLinked = record {
    both = λ p j. ground (arith, v.both p j, v.both p i, v.both i j, f.orphan, f.childless);
    distinct = λ p. ground (arith, v.distinct p);
    rooted = new_root-rooted;
  }

module _ (p i : ℕ) (l : Link) (s : Store) (v : IsLinked s) (f : IsFresh i s)
    (apart : (p == i) ≡ false) (single : l.parent ≡ some p) (leaf : l.children ≡ []) where
  abbrev new_child : Store
  new_child = put i l (put p (record (s.link p) { children = (s.link p).children ++ i ∷ [] }) s)

  new_child-IsLinked : IsLinked new_child
  new_child-IsLinked = record {
    both = λ q j. ground (
      arith,
      v.both q j,
      v.both q i,
      v.both i j,
      f.orphan,
      f.childless,
      elem-snoc j i (s.link p).children,
      single,
      leaf,
    );
    distinct = λ q. ground (
      arith,
      v.distinct q,
      v.distinct p,
      v.both p i,
      f.orphan,
      leaf,
      Distinct-snoc i (s.link p).children,
    );
    rooted = λ t.
        parent_of-none (s.roots t) s new_child (λ j held was. ground (arith, f.unheld t))
          (v.rooted t);
  }

-- Where a node is new, its parent gets it as the last child.
module _ (p i : ℕ) (s : Store) (new : elem i (s.link p).children ≡ false) where
  attach_lem :
      attach p i s ≡ put p (record (s.link p) { children = (s.link p).children ++ i ∷ [] }) s
  unfolding attach
  attach_lem = rw (new, attach) refl

module _ (p i thread : ℕ) (s : Store) (v : IsLinked s) (f : IsFresh i s)
    (apart : (p == i) ≡ false) where
  abbrev childless : Store
  childless = put i (blank thread false) s

  abbrev child : Link
  child = record (blank thread false) { parent = some p; root = cell (s.link p).thread_id s }

  abbrev adopted : Store
  adopted = put i (record (childless.link i) { parent = some p }) childless

  adopted-elem : elem i (adopted.link p).children ≡ false
  adopted-elem = ground (arith, v.both p i, f.orphan)

  adopt_link :
      (x : ℕ) → (adopt p i childless).link x ≡ (new_child p i child s v f apart refl refl).link x
  unfolding adopt
  adopt_link x = rw (attach_lem p i adopted adopted-elem, ==_refl i, apart) (ground (arith))

  adopt_roots : (adopt p i childless).roots ≡ s.roots
  unfolding adopt
  adopt_roots = rw (attach_lem p i adopted adopted-elem) refl

  adopt-IsLinked : IsLinked (adopt p i childless)
  adopt-IsLinked =
      subst IsLinked
        (λ z. record {
          link =
              fun_ext {f = (new_child p i child s v f apart refl refl).link}
                {g = (adopt p i childless).link} (λ x. sym (adopt_link x)) z;
          roots = sym adopt_roots z;
        })
        (new_child-IsLinked p i child s v f apart refl refl)

  set_parent_new : set_parent i (some p) childless ≡ some (adopt p i childless)
  unfolding set_parent
  set_parent_new = rw (==_refl i, apart) refl

set_parent_refused :
    (i p : ℕ) (s : Store) → ((s.link i).is_dummy || p == i) ≡ true → set_parent i (some p) s ≡ none
unfolding set_parent
set_parent_refused i p s h = rw (h, set_parent) refl

pub create-IsLinked :
    (i thread : ℕ) (dummy : Bool) (parent : Option ℕ) {s t : Store}
    → IsLinked s
    → IsFresh i s
    → create i thread dummy parent s ≡ some t
    → IsLinked t
unfolding create
create-IsLinked i thread dummy none {s} v f h =
    subst IsLinked (cc) (new_root-IsLinked i thread dummy s v f)
create-IsLinked i thread true (some p) {s} v f h =
    let e = set_parent_refused i p (put i (blank thread true) s) (ground arith) in cc
create-IsLinked i thread false (some p) {s} v f h = elim (Bool-cases (p == i)) [
  | inl same ↦ let e = set_parent_refused i p (put i (blank thread false) s) (ground arith) in cc
  | inr apart ↦
      subst IsLinked (let e = set_parent_new p i thread s v f apart in cc)
        (adopt-IsLinked p i thread s v f apart)
]
