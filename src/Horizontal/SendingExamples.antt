-- ===== src/Horizontal/SendingExamples.antt =====
-- A root 1 with the child 2, whose child is 3, and the pending child 4.
use gempba.Base.{ℕ, ◌≡◌, refl, true, false, List, [], ◌∷◌, Option, none, some, update, arith}
use gempba.Links.Store.{Link, Store, blank}
use gempba.Links.Linked.{IsLinked}
use gempba.Node.Life.{explicit, should_branch, delegate_locally, is_consumed}
use gempba.Node.WorkStealing.{Env, is_thread_pool_full}
use gempba.Horizontal.Sending.{Forest, locally}
use gempba.Horizontal.Submission.{send}
use gempba.Horizontal.Spine.{IsHeld}
use gempba.Horizontal.Handing.{is_ready, goes}
use gempba.Horizontal.Sent.{IsSent, send-IsSent}

abbrev node_at : Option ℕ → List ℕ → Link
node_at parent children = record (blank 7 false) {
  root = some 7;
  parent = parent;
  children = children;
}

abbrev tree : Store
tree = record {
  link =
      update
        (update
          (update (update (λ i. blank 7 false) 1 (node_at none (2 ∷ 4 ∷ []))) 2
            (node_at (some 1) (3 ∷ [])))
          3 (node_at (some 2) []))
        4 (node_at (some 1) []);
  roots = update (λ t. none) 7 (some 1);
}

tree-IsLinked : IsLinked tree
tree-IsLinked = record {
  both = λ p i. ground arith;
  distinct = λ p. ground arith;
  rooted = λ t. ground arith;
}

abbrev forest : Forest ℕ ℕ
unfolding explicit
forest = record {
  store = tree;
  nodes = λ i. explicit i none none;
  balancer = record {
    unique_id_counter = 4;
    thread_request_count = 0;
    spawn_rejected_pool_full_count = 0;
    spawn_remote_rejected_count = 0;
  };
  effects = [];
}

abbrev idle : Env
idle = record { locked = true; tasks_running = 0; thread_count = 2; channel_open = false }

abbrev busy : Env
busy = record { locked = true; tasks_running = 2; thread_count = 2; channel_open = false }

tree-IsHeld : IsHeld 7 3 1 ((2, 4 ∷ []) ∷ (3, []) ∷ []) tree
tree-IsHeld = record {
  linked = tree-IsLinked;
  top = refl;
  path = ((refl, refl), refl, (refl, tt), ((refl, refl), refl, tt, (refl, (refl, refl), refl)));
}

ready_lem : (i : ℕ) → is_ready locally (forest.nodes i) ≡ true
unfolding is_ready locally explicit should_branch delegate_locally is_consumed forest
ready_lem i = refl

idle_goes : goes (locally {A = ℕ} {P = ℕ}) idle ≡ true
unfolding goes locally is_thread_pool_full
idle_goes = refl

busy_refused : goes (locally {A = ℕ} {P = ℕ}) busy ≡ false
unfolding goes locally is_thread_pool_full
busy_refused = refl

send-IsSent_example :
    IsSent locally (4 ∷ 3 ∷ []) 2 forest (send 6 locally (idle ∷ idle ∷ busy ∷ []) 3 forest)
unfolding forest
send-IsSent_example =
    send-IsSent locally 6 7 3 busy [] busy_refused (idle ∷ idle ∷ []) 1 ((2, 4 ∷ []) ∷ (3, []) ∷ [])
      forest (idle_goes, (idle_goes, tt)) (omega arith) tree-IsHeld refl (refl, (refl, tt))
      (ready_lem 4, (ready_lem 3, tt))
