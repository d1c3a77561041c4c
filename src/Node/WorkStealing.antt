-- ===== src/Node/WorkStealing.antt =====
-- private/impl/load_balancing/work_stealing_load_balancer.hpp: what the balancer does with a node.
-- The thread pool, the mutex and the transmission channel are the environment: whether the lock was
-- taken, how many tasks run on how many threads, whether the channel was opened.
use gempba.Base.{
  ℕ, ◌+◌, ◌==◌, if◌then◌else◌, Bool, true, false, not, List, [], Option, none, some, ◌∷◌,
}
use gempba.Node.Life.{
  Node, Effect, invoked, Act, Ran, rejected, failed, returned, is_unused, discarded, is_consumed,
  run, delegate_locally, delegate_remotely, set_state, should_branch, prune,
}

pub record Balancer : Type 0 where
  pub unique_id_counter : ℕ
  pub thread_request_count : ℕ
  pub spawn_rejected_pool_full_count : ℕ
  pub spawn_remote_rejected_count : ℕ

pub record Env : Type 0 where
  pub locked : Bool
  pub tasks_running : ℕ
  pub thread_count : ℕ
  pub channel_open : Bool

-- A call's end. The answer `none` is an exception.
pub record Outcome (A P : Type 0) : Type 0 where
  pub balancer : Balancer
  pub node : Node A P
  pub effects : List (Effect A P)
  pub answer : Option Bool

unfoldable pub is_thread_pool_full : Env → Bool
is_thread_pool_full e = e.tasks_running == e.thread_count

unfoldable pub generate_unique_id : Balancer → Balancer × ℕ
generate_unique_id b =
    (record b { unique_id_counter = b.unique_id_counter + 1 }, b.unique_id_counter + 1)

abbrev pub one_request : Balancer → Balancer
one_request b = record b { thread_request_count = b.thread_request_count + 1 }

module _ {A P : Type 0} where
  abbrev pub nothing : Balancer → Node A P → Option Bool → Outcome A P
  nothing b n r = record { balancer = b; node = n; effects = []; answer = r }

  -- The end of a delegation: an exception, or `true`. `b'` is the balancer if the task was handed over.
  abbrev pub delegated : Balancer → Balancer → Node A P × Option (List (Effect A P)) → Outcome A P
  delegated b b' (n, none) = nothing b n none
  delegated b b' (n, some es) = record { balancer = b'; node = n; effects = es; answer = some true }

  -- The end of `send`: the node is pruned, and delegated or discarded.
  unfoldable pub push_node : Act A P → Balancer → Balancer → Node A P → Outcome A P
  push_node delegate b b' n =
      let (m, worth) = should_branch (prune n) in
      if is_consumed n
      then nothing b n none
      else if worth
      then delegated b b' (delegate m)
      else nothing b (set_state discarded m) (some true)

  unfoldable pub send : Env → Balancer → Node A P → Outcome A P
  send e b n =
      if not e.locked
      then nothing b n (some false)
      else if is_thread_pool_full e
      then nothing
          (record b { spawn_rejected_pool_full_count = b.spawn_rejected_pool_full_count + 1 }) n
          (some false)
      else push_node delegate_locally b (one_request b) n

  unfoldable pub send_remotely : Env → (P → Bool) → ℕ → Balancer → Node A P → Outcome A P
  send_remotely e accepts runner b n =
      if not e.locked
      then nothing b n (some false)
      else if not e.channel_open
      then nothing (record b { spawn_remote_rejected_count = b.spawn_remote_rejected_count + 1 }) n
          (some false)
      else push_node (delegate_remotely accepts runner) b b n

  -- The end of `forward`, after `run`: the node is pruned, unless there was an exception.
  abbrev pub forwarded_with : Balancer → Node A P × Ran A → Outcome A P
  forwarded_with b (n, rejected) = nothing b n none
  forwarded_with b (n, failed a) = record {
    balancer = b;
    node = n;
    effects = invoked a ∷ [];
    answer = none;
  }
  forwarded_with b (n, returned a) = record {
    balancer = b;
    node = prune n;
    effects = invoked a ∷ [];
    answer = some false;
  }

  -- The answer of `forward` is the `false` with which `try_local_submit` goes on. `fails` is that of `run`.
  unfoldable pub forward : Bool → Balancer → Node A P → Outcome A P
  forward fails b n =
      let (m, worth) = should_branch n in
      if is_unused n.state
      then (if worth then forwarded_with b (run fails m) else nothing b (prune m) (some false))
      else nothing b (prune n) (some false)

  unfoldable pub try_local_submit : Bool → Env → Balancer → Node A P → Outcome A P
  try_local_submit fails e b n =
      let o = send e b n in
      elim o.answer [ none ↦ o | some true ↦ o | some false ↦ forward fails o.balancer o.node ]

  -- What `try_remote_submit` does with the end of its `send`: a refused node is submitted locally.
  abbrev pub or_locally : Bool → Env → Outcome A P → Outcome A P
  or_locally fails later o = elim o.answer [
    | none ↦ o
    | some true ↦ o
    | some false ↦
        let r = try_local_submit fails later o.balancer o.node in
        record r { answer = elim r.answer [ none ↦ none | some _ ↦ some false ] }
  ]

  -- `worker` says whether the balancer has a scheduler's worker; `later` is the environment at the local
  -- attempt, which takes the lock anew.
  unfoldable pub try_remote_submit :
      Bool → Bool → Env → Env → (P → Bool) → ℕ → Balancer → Node A P → Outcome A P
  try_remote_submit worker fails e later accepts runner b n =
      if not worker
      then nothing b n none
      else or_locally fails later (send_remotely e accepts runner b n)
