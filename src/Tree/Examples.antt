-- ===== src/Tree/Examples.antt =====
-- Runs of the theorems on `add_next`, `pop_front` and `clear`, on a node with one child.
use gempba.Base.{ℕ, ◌<◌, ◌≤◌, ◌≡◌, refl, length, suc, List, [], ◌∷◌, ◌++◌, none, some, ◌⊎◌, update}
use gempba.Tree.Front.{pop_front_lem, clear_lem}
use gempba.Tree.Nodes.{Tree, clear, pop_front, make, blank, ok, thrown, add_next}
use gempba.Tree.Shape.{Shape}
use gempba.Tree.AddNext.{first_child}
use gempba.Tree.Insertion.{make-Shape, first_child-Shape, add_next_lem}

abbrev one_child : Tree
one_child = first_child 0 1 (make 4)

abbrev one_child_kids : ℕ → List ℕ
one_child_kids = update (λ _. []) 0 (1 ∷ [])

one_child-Shape : Shape one_child one_child_kids
unfolding make blank
one_child-Shape = first_child-Shape (make 4) (λ _. []) 0 1 (make-Shape 4) refl refl refl

add_next_lem_example :
    ((2 < one_child.size)
      × ((one_child.node 2).parent ≡ none)
      × (t' : Tree) × (add_next 0 2 one_child ≡ ok t')
      × Shape t' (update one_child_kids 0 (one_child_kids 0 ++ 2 ∷ [])))
    ⊎ (((one_child.size ≤ 2) ⊎ ((r : ℕ) × ((one_child.node 2).parent ≡ some r)))
        × (add_next 0 2 one_child ≡ thrown))
add_next_lem_example = add_next_lem one_child one_child_kids 0 2 one_child-Shape

pop_front_lem_example :
    ((k : ℕ) × (ks : List ℕ) × (one_child_kids 0 ≡ k ∷ ks)
      × ((t' : Tree) × (pop_front 0 one_child ≡ ok t') × Shape t' (update one_child_kids 0 ks)))
    ⊎ ((one_child_kids 0 ≡ []) × (pop_front 0 one_child ≡ thrown))
pop_front_lem_example = pop_front_lem one_child one_child_kids 0 one_child-Shape

clear_lem_example :
    (t' : Tree) × (clear (suc (length (one_child_kids 0))) 0 one_child ≡ some (ok t'))
    × Shape t' (update one_child_kids 0 [])
clear_lem_example = clear_lem one_child one_child_kids 0 one_child-Shape
