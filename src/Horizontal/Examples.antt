-- ===== src/Horizontal/Examples.antt =====
-- A root 1 with one child 2, whose one child 3 has the children 4 and 5.
use gempba.Base.{ℕ, ◌≡◌, refl, inl, false, List, [], ◌∷◌, Option, none, some, update, arith}
use gempba.Links.Store.{Link, Store, blank, create, get_root, set_parent, set_root, adopt, attach}
use gempba.Links.Linked.{IsLinked, IsFresh}
use gempba.Horizontal.Roots.{try_correct_root}
use gempba.Horizontal.Lowering.{lowering, try_correct_root_lem}
use gempba.Horizontal.Steps.{Step, Steps, no_nodes, Steps-IsLinked}

abbrev under : Option ℕ → List ℕ → Link
under parent children = record (blank 7 false) {
  root = some 7;
  parent = parent;
  children = children;
}

abbrev chain : Store
chain = record {
  link =
      update
        (update
          (update
            (update (update (λ i. blank 7 false) 1 (under none (2 ∷ []))) 2
              (under (some 1) (3 ∷ [])))
            3 (under (some 2) (4 ∷ 5 ∷ [])))
          4 (under (some 3) []))
        5 (under (some 3) []);
  roots = update (λ t. none) 7 (some 1);
}

chain_root : get_root 4 chain ≡ some 1
unfolding get_root
chain_root = refl

try_correct_root_example : try_correct_root 3 4 chain ≡ some (lowering 3 (1 ∷ 2 ∷ []) 7 chain)
try_correct_root_example =
    try_correct_root_lem (3 ∷ []) 3 4 1 2 7 chain chain_root (omega arith) refl
      (refl, (refl, (refl, tt))) (refl, (refl, tt)) (refl, refl, (refl, inl refl))

abbrev first : Store
first = record {
  link = update no_nodes.link 1 (record (blank 7 false) { root = some 7 });
  roots = update no_nodes.roots 7 (some 1);
}

abbrev second : Store
unfolding adopt attach
second = adopt 1 2 (record first { link = update first.link 2 (blank 7 false) })

first_lem : create 1 7 false none no_nodes ≡ some first
unfolding create set_root
first_lem = refl

second_lem : create 2 7 false (some 1) first ≡ some second
unfolding create set_parent adopt attach
second_lem = refl

first-IsFresh : IsFresh 1 no_nodes
first-IsFresh = record { orphan = refl; childless = refl; unheld = λ t. refl }

second-IsFresh : IsFresh 2 first
second-IsFresh = record { orphan = refl; childless = refl; unheld = λ t. ground arith }

second_root : get_root 2 second ≡ some 1
unfolding get_root second
second_root = refl

abbrev third : Store
third = lowering 2 (1 ∷ []) 7 second

third_lem : try_correct_root 3 2 second ≡ some third
unfolding second
third_lem =
    try_correct_root_lem [] 3 2 1 2 7 second second_root (omega arith) refl (refl, (refl, tt))
      (refl, tt) (refl, inl refl)

Steps-IsLinked_example : IsLinked third
Steps-IsLinked_example = Steps-IsLinked (
    Steps.next
      (Steps.next (Steps.next Steps.here (Step.created 1 7 false none first-IsFresh first_lem))
        (Step.created 2 7 false (some 1) second-IsFresh second_lem))
      (Step.corrected 3 2 third_lem))
