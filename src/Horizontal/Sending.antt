-- ===== src/Horizontal/Sending.antt =====
-- quasi_horizontal_load_balancer.hpp: what is handed over at a submission. The nodes' links are a store, their
-- arguments and states are those of Node.Life, one for each address. Each round of the loop of `send` takes the
-- lock anew, so it has an environment of its own; where the list of environments ends the model stops.
use gempba.Base.{
  ℕ, ◌+◌, ◌==◌, if◌then◌else◌, Bool, true, false, not, List, ◌++◌, Option, none, some, update,
}
use gempba.Links.Store.{Store, get_root, prune, get_second_leftmost_child}
use gempba.Node.Life.{
  Node, Effect, Act, discarded, is_consumed, delegate_locally, delegate_remotely, set_state,
  should_branch,
}
use gempba.Node.WorkStealing.{Balancer, Env, is_thread_pool_full, one_request}
use gempba.Horizontal.Roots.{try_correct_root}

pub record Forest (A P : Type 0) : Type 0 where
  pub store : Store
  pub nodes : ℕ → Node A P
  pub balancer : Balancer
  -- what has left the balancer, the latest last
  pub effects : List (Effect A P)

-- How a call ends: with its answer, by an exception, or where the model stops.
pub data Ending : Type 0 where
  answered : Bool → Ending
  thrown stopped : Ending

-- What the local and the remote submission do differently.
pub record Way (A P : Type 0) : Type 0 where
  pub refuses : Env → Bool
  pub refused : Balancer → Balancer
  pub delegate : Act A P
  pub delegated : Balancer → Balancer

-- The pending node at the root's level, taken off the tree.
unfoldable pub get_root_level_pending_node : ℕ → Store → Option ℕ × Store
unfolding get_root
get_root_level_pending_node p s = elim (s.link p).parent [
  | none ↦ (none, s)
  | some parent ↦ elim (get_root p s) [
    | none ↦ (none, s)
    | some root ↦
        if parent == root
        then (none, s)
        else elim (get_second_leftmost_child (s.link root).children) [
          | none ↦ (none, s)
          | some second ↦ (some second, prune second s)
        ]
  ]
]

module _ {A P : Type 0} where
  unfoldable pub locally : Way A P
  locally = record {
    refuses = is_thread_pool_full;
    refused =
        λ b. record b { spawn_rejected_pool_full_count = b.spawn_rejected_pool_full_count + 1 };
    delegate = delegate_locally;
    delegated = one_request;
  }

  unfoldable pub remotely : (P → Bool) → ℕ → Way A P
  remotely accepts runner = record {
    refuses = λ e. not e.channel_open;
    refused = λ b. record b { spawn_remote_rejected_count = b.spawn_remote_rejected_count + 1 };
    delegate = delegate_remotely accepts runner;
    delegated = λ b. b;
  }

  abbrev pub with_node : ℕ → Node A P → Forest A P → Forest A P
  with_node i n f = record f { nodes = update f.nodes i n }

  -- The end of a delegation.
  abbrev pub settle :
      Way A P → ℕ → Forest A P → Node A P × Option (List (Effect A P)) → Forest A P × Ending
  settle w i f (n, none) = (with_node i n f, thrown)
  settle w i f (n, some es) = (
    record (with_node i n f) { balancer = w.delegated f.balancer; effects = f.effects ++ es },
    answered true,
  )

  -- The node is handed over, or discarded if it is not worth it.
  unfoldable pub hand_over : Way A P → ℕ → Forest A P → Forest A P × Ending
  unfolding should_branch set_state
  hand_over w i f =
      let (n, worth) = should_branch (f.nodes i) in
      if worth
      then settle w i f (w.delegate n)
      else (with_node i (set_state discarded n) f, answered true)

  abbrev pub hand_over_corrected : Way A P → ℕ → Forest A P → Option Store → Forest A P × Ending
  hand_over_corrected w i f none = (f, stopped)
  hand_over_corrected w i f (some s) = hand_over w i (record f { store = s })

  unfoldable pub try_push_root_level_node : ℕ → Way A P → ℕ → Forest A P → Forest A P × Ending
  unfolding get_root_level_pending_node
  try_push_root_level_node fuel w p f =
      let (top, s) = get_root_level_pending_node p f.store in
      elim top [
        | none ↦ (f, answered false)
        | some i ↦
            if is_consumed (f.nodes i)
            then (record f { store = s }, thrown)
            else hand_over_corrected w i (record f { store = s }) (try_correct_root fuel p s)
      ]
