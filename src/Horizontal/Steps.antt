-- ===== src/Horizontal/Steps.antt =====
-- The links between the nodes, from the first node on: nodes are made, pruned, and roots are lowered.
use gempba.Base.{ℕ, ◌≡◌, refl, Bool, false, [], Option, none, some}
use gempba.Links.Store.{Store, blank, create, prune}
use gempba.Links.Linked.{IsLinked, IsFresh, prune-IsLinked}
use gempba.Links.Creation.{create-IsLinked}
use gempba.Horizontal.Roots.{try_correct_root}
use gempba.Horizontal.Agreement.{try_correct_root-IsLinked}

-- A node is pruned once it has no children: they were pruned before.
pub data Step (s : Store) : Store → Type 0 where
  created :
      (i thread : ℕ) (dummy : Bool) (parent : Option ℕ) {t : Store}
      → IsFresh i s
      → create i thread dummy parent s ≡ some t
      → Step s t
  pruned : (i : ℕ) → (s.link i).children ≡ [] → Step s (prune i s)
  corrected : (fuel p : ℕ) {t : Store} → try_correct_root fuel p s ≡ some t → Step s t

pub data Steps (s : Store) : Store → Type 0 where
  here : Steps s s
  next : {t u : Store} → Steps s t → Step t u → Steps s u

abbrev pub no_nodes : Store
no_nodes = record { link = λ i. blank 0 false; roots = λ t. none }

no_nodes-IsLinked : IsLinked no_nodes
no_nodes-IsLinked = record { both = λ p i. refl; distinct = λ p. tt; rooted = λ t. refl }

Step-IsLinked : {s t : Store} → Step s t → IsLinked s → IsLinked t
Step-IsLinked (created i thread dummy parent f h) v = create-IsLinked i thread dummy parent v f h
Step-IsLinked {s} (pruned i leaf) v = prune-IsLinked i s v leaf
Step-IsLinked (corrected fuel p h) v = try_correct_root-IsLinked fuel p v h

-- Whatever nodes are made, pruned without children, and roots corrected, a node is in the list of
-- children of its parent, once, and in no other, and the root of a thread has no parent.
pub Steps-IsLinked : {s : Store} → Steps no_nodes s → IsLinked s
Steps-IsLinked here = no_nodes-IsLinked
Steps-IsLinked (next r st) = Step-IsLinked st (Steps-IsLinked r)
