-- ===== src/Semi/Center.antt =====
-- mpi_semi_centralized_scheduler.hpp: the state of the center and what it does with each message. An
-- exception is `none`, and so is a null pointer of the process tree that is read.
use gempba.Base.{
  ℕ, zero, suc, ◌+◌, ◌-◌, ◌%◌, ltb, if◌then◌else◌, Bool, true, false, ◌&&◌, not, List, [], ◌∷◌,
  ◌++◌, Option, none, some, set, get_elem?,
}
use gempba.Base.Messages.{to_ranks}
use gempba.Base.Int.{ℤ, incr, decr}
use gempba.Score.Defs.{Score, Floats, Goal, should_broadcast_global}
use gempba.Termination.Detector.{Detector, on_task_sent}
use gempba.Tree.Nodes.{Tree, Result, ok, thrown, fault, is_assigned, has_next, add_next, release}
use gempba.Central.Tasks.{Bundle}
use gempba.Central.Dispatch.{State, running, assigned, available, is_available}
use gempba.Central.Center.{Stats, requested, handled}

pub record Center : Type 0 where
  pub world_size : ℕ
  pub process_state : List State
  pub process_tree : Tree
  pub nodes_running : ℤ
  pub nodes_available : ℤ
  pub goal : Goal
  pub global_score : Score
  pub score_updates_sent : ℕ
  pub next_processes_sent : List ℕ
  pub termination : Detector
  pub sent_tasks : ℕ
  pub total_requests_number : ℕ
  pub stats : Stats

-- A message to a rank, or a call of the telemetry hub.
pub data Out : Type 0 where
  task : ℕ → Bundle → Out
  score_update : ℕ → Score → Out
  next_process : ℕ → List ℕ → Out
  termination_notice : ℕ → ℕ → ℕ → Out
  record_state_msg : Out
  record_assignment_accepted : ℕ → Out
  record_assignment : ℕ → Out
  record_send : ℕ → Bundle → Out
  record_score_proposal record_score_broadcast record_score_improved : Out

abbrev pub Outcome : Type 0
Outcome = Option (Center × List Out)

-- `++m_next_processes_sent[r]`
abbrev pub bump : List ℕ → ℕ → List ℕ
bump [] r = []
bump (n ∷ ns) zero = (n + 1) ∷ ns
bump (n ∷ ns) (suc r) = n ∷ bump ns r

-- `m_next_processes_sent[r]`
abbrev pub count_at : List ℕ → ℕ → ℕ
count_at [] r = 0
count_at (n ∷ ns) zero = n
count_at (n ∷ ns) (suc r) = count_at ns r

abbrev pub with_tree : Result → (Tree → Outcome) → Outcome
with_tree (ok t) f = f t
with_tree thrown f = none
with_tree fault f = none

-- `child` is announced to `parent`.
unfoldable pub assign_next : ℕ → ℕ → Center → Outcome
assign_next parent child c = with_tree (add_next parent child c.process_tree) (λ t. some (
  record c {
    process_tree = t;
    process_state = set c.process_state child assigned;
    next_processes_sent = bump c.next_processes_sent parent;
    nodes_available = decr c.nodes_available;
  },
  next_process parent (child ∷ []) ∷ record_assignment child ∷ [],
))

-- `if (is_assigned()) release()`
unfoldable pub released : ℕ → Tree → Result
released src t = if is_assigned t src then release src t else ok t

abbrev pub first_available : ℕ → List State → Option ℕ
first_available r [] = none
first_available r (s ∷ ss) = if is_available s then some r else first_available (r + 1) ss

unfoldable pub get_available : List State → Option ℕ
get_available [] = none
get_available (center ∷ ss) = first_available 1 ss

abbrev pub give_next : ℕ → Option ℕ → Center → Outcome
give_next src none c = some (c, [])
give_next src (some child) c = assign_next src child c

abbrev pub count_request : Center → Center
count_request c = record c {
  total_requests_number = c.total_requests_number + 1;
  stats = requested c.stats;
}

abbrev pub reported_running : ℕ → Center → Center
reported_running src c = record c {
  process_state = set c.process_state src running;
  nodes_running = incr c.nodes_running;
  stats = handled c.stats;
}

abbrev pub close_running : ℕ → Outcome → Outcome
close_running src none = none
close_running src (some (c, outs)) =
    some (count_request c, record_state_msg ∷ record_assignment_accepted src ∷ outs)

unfoldable pub process_running : ℕ → Center → Outcome
process_running src c = with_tree (released src c.process_tree) (λ t.
    let d = record (reported_running src c) { process_tree = t } in
    close_running src
      (give_next src (if has_next t src then none else get_available d.process_state) d))

abbrev pub is_running : Option State → Bool
is_running (some running) = true
is_running _ = false

-- A worker that runs and has no child to push to.
unfoldable pub is_candidate : Center → ℕ → Bool
is_candidate c r =
    ltb 0 r && (is_running (get_elem? c.process_state r) && not (has_next c.process_tree r))

-- The rounds of the loop from `i` on, `rounds` of them; `offset` is the random number.
unfoldable pub search_from : ℕ → ℕ → ℕ → Center → Option ℕ
search_from zero i offset c = none
search_from (suc rounds) i offset c =
    let r = (i + offset) % c.world_size in
    let rest = search_from rounds (i + 1) offset c in if is_candidate c r then some r else rest

unfoldable pub search : ℕ → Center → Option ℕ
unfolding search_from
search offset c = search_from c.world_size 0 offset c

abbrev pub reported_available : ℕ → Center → Center
reported_available src c = record c {
  process_state = set c.process_state src available;
  nodes_available = incr c.nodes_available;
  nodes_running = decr c.nodes_running;
  total_requests_number = c.total_requests_number + 1;
  stats = handled (requested c.stats);
}

abbrev pub take_on : ℕ → Option ℕ → Center → Outcome
take_on src none c = some (c, [])
take_on src (some r) c = assign_next r src c

abbrev pub close_available : Outcome → Outcome
close_available none = none
close_available (some (c, outs)) = some (c, record_state_msg ∷ outs)

unfoldable pub process_available : ℕ → ℕ → Center → Outcome
process_available offset src c = with_tree (released src c.process_tree) (λ t.
    let d = record (reported_available src c) { process_tree = t } in
    close_available (take_on src (search offset d) d))

abbrev pub to_workers : Center → (ℕ → Out) → List Out
to_workers c f = to_ranks 1 (c.world_size - 1) f

unfoldable pub maybe_broadcast_global_score : Floats → Score → Center → Center × List Out
maybe_broadcast_global_score fl new c =
    if should_broadcast_global fl c.goal c.global_score new
    then (
      record c {
        global_score = new;
        score_updates_sent = c.score_updates_sent + 1;
        total_requests_number = c.total_requests_number + 1;
        stats = requested (handled (handled c.stats));
      },
      record_score_proposal ∷ to_workers c (λ r. score_update r new)
          ++ record_score_broadcast ∷ record_score_improved ∷ [],
    )
    else (record c { stats = handled c.stats }, record_score_proposal ∷ [])

unfoldable pub notify_termination : Center → List Out
notify_termination c =
    to_workers c (λ r. termination_notice r c.score_updates_sent (count_at c.next_processes_sent r))

-- `for (auto& v_child : m_process_tree[rank])`: the iterator follows the right siblings.
unfoldable pub children_from : ℕ → Tree → Option ℕ → List ℕ
children_from zero t k = []
children_from (suc fuel) t none = []
children_from (suc fuel) t (some k) = k ∷ children_from fuel t (t.node k).right_sibling

abbrev pub assign_children : List ℕ → Center → Center × List Out
assign_children [] c = (c, [])
assign_children (k ∷ ks) c =
    let (d, outs) = assign_children ks (record c {
      process_state = set c.process_state k assigned;
      nodes_available = decr c.nodes_available;
    }) in
    (d, record_assignment k ∷ outs)

abbrev pub announce : ℕ → List ℕ → Center → Center × List Out
announce r [] c = (c, [])
announce r (k ∷ ks) c =
    (record c { next_processes_sent = bump c.next_processes_sent r }, next_process r (k ∷ ks) ∷ [])

-- One round of the loop of `broadcast_nodes_topology`.
unfoldable pub announce_children : ℕ → Center → Center × List Out
unfolding children_from
announce_children r c =
    let ks = children_from c.process_tree.size c.process_tree (c.process_tree.node r).next in
    let (d, outs) = assign_children ks c in let (e, told) = announce r ks d in (e, outs ++ told)

-- `n` rounds, for the ranks from `r` on
unfoldable pub topology_from : ℕ → ℕ → Center → Center × List Out
unfolding announce_children
topology_from zero r c = (c, [])
topology_from (suc n) r c =
    let (d, outs) = announce_children r c in
    let (e, more) = topology_from n (r + 1) d in (e, outs ++ more)

unfoldable pub broadcast_nodes_topology : Center → Center × List Out
unfolding topology_from
broadcast_nodes_topology c = topology_from (c.world_size - 1) 1 c

unfoldable pub send_seed : Bundle → Center → Center × List Out
send_seed b c = (
  record c {
    nodes_available = decr c.nodes_available;
    process_state = set c.process_state 1 running;
    termination = on_task_sent c.termination;
    sent_tasks = c.sent_tasks + 1;
    total_requests_number = c.total_requests_number + 1;
    stats = handled (record c.stats {
      sent_task_count = c.stats.sent_task_count + 1;
      total_requested_tasks = c.stats.total_requested_tasks + 1;
    });
  },
  task 1 b ∷ record_send 1 b ∷ record_assignment 1 ∷ [],
)
