-- ===== src/Horizontal/Roots.antt =====
-- quasi_horizontal_load_balancer.hpp: the root of a thread is lowered to where work is left. The loop has
-- fuel, and `none` is its end.
use gempba.Base.{
  ℕ, zero, suc, ◌==◌, leb, if◌then◌else◌, ◌&&◌, ◌||◌, [], ◌∷◌, length, Option, none, some,
}
use gempba.Links.Store.{Store, put, set_root, get_root, prune}

unfoldable pub make_root : ℕ → Store → Store
unfolding set_root
make_root i s =
    let t = set_root (s.link i).thread_id i s in put i (record (t.link i) { parent = none }) t

-- One round of the loop: the root `r` gives way to its one child.
unfoldable pub hand_down : ℕ → ℕ → Store → Store
unfolding make_root prune
hand_down r child s = prune r (make_root child s)

unfoldable pub lower : ℕ → ℕ → ℕ → Store → Option Store
unfolding hand_down
lower zero r p s = none
lower (suc fuel) r p s = elim (s.link r).children [
  | [] ↦ some s
  | child ∷ [] ↦
      let t = hand_down r child s in
      let rest = lower fuel child p t in
      if (child == p) || leb 2 (length (t.link child).children) then some t else rest
  | child ∷ other ∷ others ↦ some s
]

unfoldable pub try_correct_root : ℕ → ℕ → Store → Option Store
unfolding lower get_root
try_correct_root fuel p s = elim (get_root p s) [
  | none ↦ some s
  | some r ↦
      let count = length (s.link r).children in
      let rest = lower fuel r p s in
      if (r == p) && (count == 0) then some s else if leb 2 count then some s else rest
]
