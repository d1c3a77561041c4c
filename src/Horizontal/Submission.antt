-- ===== src/Horizontal/Submission.antt =====
-- quasi_horizontal_load_balancer.hpp: the loop of `send`, `forward` and the two submissions.
use gempba.Base.{
  ℕ, if◌then◌else◌, Bool, true, false, ◌&&◌, not, List, [], ◌∷◌, ◌++◌, Option, none, some,
}
use gempba.Links.Store.{Store, points_to, is_empty, get_root, prune}
use gempba.Node.Life.{
  Node, invoked, Ran, rejected, failed, returned, is_unused, is_consumed, run, should_branch,
}
use gempba.Node.WorkStealing.{Env}
use gempba.Horizontal.Roots.{try_correct_root}
use gempba.Horizontal.Sending.{
  Forest, Ending, answered, thrown, stopped, Way, locally, remotely, with_node, hand_over,
  try_push_root_level_node,
}

-- `try_correct_root` of the parent that the node had. The accessors of a null node throw.
abbrev pub correct_from : ℕ → Option ℕ → Store → Store × Ending
correct_from fuel none s = (s, thrown)
correct_from fuel (some parent) s = elim (try_correct_root fuel parent s) [
  | none ↦ (s, stopped)
  | some t ↦ (t, answered true)
]

unfoldable pub prune_and_fix_parent_root_if_needed : ℕ → ℕ → Store → Store × Ending
unfolding prune get_root
prune_and_fix_parent_root_if_needed fuel p s =
    if points_to (get_root p s) p && is_empty (s.link p).children
    then (s, answered true)
    else correct_from fuel (s.link p).parent (prune p s)

module _ {A P : Type 0} where
  -- After `prune_and_fix_parent_root_if_needed`.
  abbrev pub hand_over_fixed : Way A P → ℕ → Forest A P → Store × Ending → Forest A P × Ending
  hand_over_fixed w p f (s, answered b) = hand_over w p (record f { store = s })
  hand_over_fixed w p f (s, thrown) = (record f { store = s }, thrown)
  hand_over_fixed w p f (s, stopped) = (record f { store = s }, stopped)

  unfoldable pub push_current : ℕ → Way A P → ℕ → Forest A P → Forest A P × Ending
  unfolding prune_and_fix_parent_root_if_needed hand_over
  push_current fuel w p f =
      if is_consumed (f.nodes p)
      then (f, thrown)
      else hand_over_fixed w p f (prune_and_fix_parent_root_if_needed fuel p f.store)

  unfoldable pub send : ℕ → Way A P → List Env → ℕ → Forest A P → Forest A P × Ending
  send fuel w [] p f = (f, stopped)
  send fuel w (e ∷ es) p f =
      let (g, ending) = try_push_root_level_node fuel w p f in
      let rest = send fuel w es p g in
      if not e.locked
      then (f, answered false)
      else if w.refuses e
      then (record f { balancer = w.refused f.balancer }, answered false)
      else elim ending [
        | answered found ↦ if found then rest else push_current fuel w p f
        | thrown ↦ (g, thrown)
        | stopped ↦ (g, stopped)
      ]

  abbrev pub after_forward : ℕ → ℕ → Forest A P → Forest A P × Ending
  after_forward fuel p f = elim (f.store.link p).parent [
    | none ↦ (record f { store = prune p f.store }, answered false)
    | some parent ↦ elim (try_correct_root fuel parent (prune p f.store)) [
      | none ↦ (record f { store = prune p f.store }, stopped)
      | some s ↦ (record f { store = s }, answered false)
    ]
  ]

  -- The end of a call of the node's function. `call` is what the function itself does to the forest: it makes
  -- the node's children and submits them. If it throws, its effects up to there stay.
  abbrev pub ran :
      (Forest A P → Forest A P) → ℕ → ℕ → Forest A P → Node A P × Ran A → Forest A P × Ending
  ran call fuel p f (n, rejected) = (with_node p n f, thrown)
  ran call fuel p f (n, failed a) =
      (call (record (with_node p n f) { effects = f.effects ++ (invoked a ∷ []) }), thrown)
  ran call fuel p f (n, returned a) =
      after_forward fuel p
        (call (record (with_node p n f) { effects = f.effects ++ (invoked a ∷ []) }))

  -- The answer is the `false` with which `try_local_submit` goes on.
  unfoldable pub forward :
      Bool → (Forest A P → Forest A P) → ℕ → ℕ → Forest A P → Forest A P × Ending
  unfolding should_branch run prune
  forward fails call fuel p f =
      let (n, worth) = should_branch (f.nodes p) in
      if is_unused (f.nodes p).state
      then (if worth
          then ran call fuel p f (run fails n)
          else after_forward fuel p (with_node p n f))
      else after_forward fuel p f

  unfoldable pub try_local_submit :
      Bool → (Forest A P → Forest A P) → ℕ → List Env → ℕ → Forest A P → Forest A P × Ending
  unfolding send locally forward
  try_local_submit fails call fuel es p f =
      let (g, ending) = send fuel locally es p f in
      elim ending [
        | answered sent ↦ if sent then (g, answered true) else forward fails call fuel p g
        | thrown ↦ (g, thrown)
        | stopped ↦ (g, stopped)
      ]

  -- A refused node is submitted locally, and the answer is `false` whatever comes of it.
  abbrev pub unless_thrown : Forest A P × Ending → Forest A P × Ending
  unless_thrown (f, answered b) = (f, answered false)
  unless_thrown (f, thrown) = (f, thrown)
  unless_thrown (f, stopped) = (f, stopped)

  -- `later` are the environments of the local attempt.
  unfoldable pub try_remote_submit :
      Bool
      → (P → Bool)
      → ℕ
      → Bool
      → (Forest A P → Forest A P)
      → ℕ
      → List Env
      → List Env
      → ℕ
      → Forest A P
      → Forest A P × Ending
  unfolding send remotely try_local_submit
  try_remote_submit worker accepts runner fails call fuel es later p f =
      let (g, ending) = send fuel (remotely accepts runner) es p f in
      if not worker then (f, thrown) else elim ending [
        | answered sent ↦
            if sent
            then (g, answered true)
            else unless_thrown (try_local_submit fails call fuel later p g)
        | thrown ↦ (g, thrown)
        | stopped ↦ (g, stopped)
      ]
