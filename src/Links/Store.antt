-- ===== src/Links/Store.antt =====
-- node_core_impl.hpp: the links between the nodes, on a store of nodes. A pointer to a node is its address,
-- nullptr is `none`. The balancer holds one cell for each thread that points to the thread's root;
-- `m_root` points to such a cell, so it is the thread of the cell.
use gempba.Base.{
  ℕ, ◌==◌, if◌then◌else◌, Bool, true, false, ◌||◌, not, List, [], ◌∷◌, ◌++◌, Option, none, some,
  update,
}

pub record Link : Type 0 where
  pub root : Option ℕ
  pub parent : Option ℕ
  pub children : List ℕ
  pub thread_id : ℕ
  pub is_dummy : Bool

pub record Store : Type 0 where
  pub link : ℕ → Link
  pub roots : ℕ → Option ℕ

abbrev pub put : ℕ → Link → Store → Store
put i l s = record s { link = update s.link i l }

abbrev pub elem : ℕ → List ℕ → Bool
elem x [] = false
elem x (y ∷ ys) = x == y || elem x ys

-- `std::list::remove`: every occurrence
abbrev pub remove : ℕ → List ℕ → List ℕ
remove x [] = []
remove x (y ∷ ys) = if y == x then remove x ys else y ∷ remove x ys

abbrev pub points_to : Option ℕ → ℕ → Bool
points_to none i = false
points_to (some j) i = j == i

abbrev pub is_empty : List ℕ → Bool
is_empty [] = true
is_empty (x ∷ xs) = false

-- `set_root` of the balancer: the cell of a thread is made when it is first needed.
unfoldable pub set_root : ℕ → ℕ → Store → Store
set_root thread i s = record s { roots = update s.roots thread (some i) }

-- `get_root` of the balancer: the cell of a thread, if there is one
abbrev pub cell : ℕ → Store → Option ℕ
cell thread s = elim (s.roots thread) [ none ↦ none | some _ ↦ some thread ]

-- `get_root` of a node: what the cell points to
unfoldable pub get_root : ℕ → Store → Option ℕ
get_root i s = elim (s.link i).root [ none ↦ none | some thread ↦ s.roots thread ]

-- The end of `add_child`.
unfoldable pub attach : ℕ → ℕ → Store → Store
attach p i s =
    let l = s.link p in
    if elem i l.children then s else put p (record l { children = l.children ++ i ∷ [] }) s

-- The end of `set_parent`. The parent's add_child finds the pointer to itself in place, and attaches.
unfoldable pub adopt : ℕ → ℕ → Store → Store
unfolding attach
adopt p i s =
    let t = attach p i (put i (record (s.link i) { parent = some p }) s) in
    put i (record (t.link i) { root = cell (t.link p).thread_id t }) t

-- `none` is an exception.
unfoldable pub set_parent : ℕ → Option ℕ → Store → Option Store
unfolding adopt
set_parent i none s = some (put i (record (s.link i) { parent = none }) s)
set_parent i (some p) s =
    if (s.link i).is_dummy || (p == i) || not (is_empty (s.link i).children)
    then none
    else if points_to (s.link i).parent p
    then some s
    else some (adopt p i s)

abbrev pub attach_to : ℕ → ℕ → Option Store → Option Store
attach_to p i none = none
attach_to p i (some s) = some (attach p i s)

unfoldable pub add_child : ℕ → ℕ → Store → Option Store
unfolding set_parent attach
add_child p i s =
    if i == p
    then none
    else if points_to (s.link i).parent p
    then some (attach p i s)
    else attach_to p i (set_parent i (some p) s)

unfoldable pub remove_child : ℕ → ℕ → Store → Store
remove_child p i s = put p (record (s.link p) { children = remove i (s.link p).children }) s

abbrev pub cleared : Link → Link
cleared l = record l { root = none; parent = none; children = [] }

unfoldable pub prune : ℕ → Store → Store
unfolding remove_child
prune i s = elim (s.link i).parent [
  | none ↦ put i (cleared (s.link i)) s
  | some p ↦ put i (cleared ((remove_child p i s).link i)) (remove_child p i s)
]

abbrev pub get_leftmost_child : List ℕ → Option ℕ
get_leftmost_child [] = none
get_leftmost_child (x ∷ xs) = some x

-- `none` is the exception.
abbrev pub get_second_leftmost_child : List ℕ → Option ℕ
get_second_leftmost_child [] = none
get_second_leftmost_child (x ∷ []) = none
get_second_leftmost_child (x ∷ y ∷ xs) = some y

-- The constructors with `init`: a node of this thread at the address `i`.
abbrev pub blank : ℕ → Bool → Link
blank thread dummy = record {
  root = none;
  parent = none;
  children = [];
  thread_id = thread;
  is_dummy = dummy;
}

unfoldable pub create : ℕ → ℕ → Bool → Option ℕ → Store → Option Store
unfolding set_parent set_root
create i thread dummy (some p) s = set_parent i (some p) (put i (blank thread dummy) s)
create i thread dummy none s =
    some (put i (record (blank thread dummy) { root = some thread }) (set_root thread i s))
