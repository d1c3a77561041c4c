-- ===== src/Node/Examples.antt =====
-- A lazy node with one number as argument.
use gempba.Base.{ℕ, ◌+◌, ◌≡◌, refl, true, false, List, [], ◌∷◌, none, some}
use gempba.Node.Life.{
  Node, submitted, lazily, placeholder, should_branch, run, delegate_locally, prune, is_consumed,
}
use gempba.Node.Consumption.{
  Op, runs, asks, delegates, prunes, threw, completed, OnceUnless, history, consumed_once, apply,
}
use gempba.Node.WorkStealing.{Balancer, Env, Outcome, try_local_submit, try_remote_submit}
use gempba.Node.Submission.{
  IsReady, Submitted, SubmittedRemotely, admits, opens, rejection, local_submission,
  remote_submission,
}

abbrev seven : Node ℕ ℕ
unfolding lazily placeholder
seven = lazily 0 (λ _. some 7) none none

seven-IsReady : IsReady seven
unfolding lazily placeholder
seven-IsReady = record { fresh = refl; given = λ e. cc; asked = λ e f. cc }

-- The function throws at the first call; then the node is handed to the pool.
abbrev calls : List (Op ℕ ℕ)
calls = asks ∷ runs true ∷ prunes ∷ delegates ∷ runs false ∷ delegates ∷ []

calls-history : history calls seven ≡ threw 7 ∷ completed (submitted 7) ∷ []
unfolding history apply should_branch run delegate_locally prune lazily placeholder
calls-history = refl

consumed_once_example : OnceUnless (is_consumed seven) (history calls seven)
consumed_once_example = consumed_once calls seven

abbrev fresh_balancer : Balancer
fresh_balancer = record {
  unique_id_counter = 0;
  thread_request_count = 0;
  spawn_rejected_pool_full_count = 0;
  spawn_remote_rejected_count = 0;
}

abbrev one_free : Env
one_free = record { locked = true; tasks_running = 1; thread_count = 2; channel_open = false }

abbrev none_free : Env
none_free = record { locked = true; tasks_running = 2; thread_count = 2; channel_open = false }

-- The node's function throws.
local_submission_example :
    Submitted true true
      (admits none_free)
      seven.linked
      (should_branch seven)
      (try_local_submit true none_free fresh_balancer seven)
local_submission_example = local_submission true none_free fresh_balancer seven seven-IsReady

abbrev remote_outcome : Outcome ℕ ℕ
remote_outcome = try_remote_submit true false one_free one_free (λ _. true) 0 fresh_balancer seven

remote_submission_example :
    SubmittedRemotely
      (opens one_free)
      false
      (admits one_free)
      (λ _. true)
      0
      seven.linked
      (should_branch seven)
      remote_outcome
    × (remote_outcome.balancer.spawn_remote_rejected_count
        ≡ fresh_balancer.spawn_remote_rejected_count + rejection one_free)
remote_submission_example =
    remote_submission false one_free one_free (λ _. true) 0 fresh_balancer seven seven-IsReady
