-- ===== src/Semi/Examples.antt =====
-- Runs of the theorems on the semi-centralized scheduler, in a world of three ranks.
use gempba.Base.{
  last, ℕ, ◌<◌, ◌≡◌, ◌≢◌, ◌⊎◌, refl, true, false, List, [], ◌∷◌, ◌++◌, none, some, length, update,
  All, arith,
}
use gempba.Score.Defs.{
  i32, Score, Floats, equivalent, maximise, should_update, compare_score, int_value,
}
use gempba.Termination.Detector.{init, on_task_sent, on_ack_received, is_quiescent}
use gempba.Termination.Handlers.{process_task_received_ack, accepts_termination}
use gempba.Tree.Nodes.{
  Tree, Result, ok, blank, is_assigned, has_next, add_next, attach, release, pop_front, pop_from,
  detach,
}
use gempba.Central.Tasks.{Bundle}
use gempba.Semi.Center.{
  Center, Out, record_state_msg, next_process, record_assignment, assign_next, released,
  get_available, process_running, process_available, maybe_broadcast_global_score,
  broadcast_nodes_topology, topology_from, announce_children, children_from, send_seed,
  notify_termination,
}
use gempba.Semi.Loop.{
  running_state, score_proposal, task_received, start, begin, handle, ends, Reach, begun, receive,
}
use gempba.Semi.Notices.{scores_to, nexts_to, endings_to, last_center, last_outs, Notified}
use gempba.Semi.Ending.{Reach-Notified, termination_counts}
use gempba.Semi.Worker.{Receiver, drained, process_termination, written}
use gempba.Semi.Drain.{told_all}
use gempba.Semi.Channel.{IsNext}
use gempba.Semi.Announcing.{others_announced}
use gempba.Semi.Available.{Waits, left_available, announced_to, process_available_lem}
use gempba.Tree.Shape.{Shape}
use gempba.Tree.Insertion.{make-Shape}

abbrev flat : Floats
flat = record {
  LongDouble = ℕ;
  of_int = λ _. 0;
  of_f32 = λ b. b;
  of_f64 = λ b. b;
  of_f128 = λ b. b;
  ldbl_min = 1;
  ldbl_max = 2;
  compare_ld = λ _ _. equivalent;
}

abbrev zero_score : Score
zero_score = record { kind = i32; payload = 0 }

abbrev five : Score
five = record { kind = i32; payload = 5 }

abbrev seed : Bundle
seed = record { bytes = 3 ∷ 1 ∷ []; runnable_id = 7 }

-- A topology without links.
abbrev no_links : Tree
no_links = gempba.Tree.Nodes.make 3

abbrev first : Center
first = start 3 no_links maximise zero_score

abbrev ready : Center
ready = (begin seed first).0

abbrev ready_outs : List Out
ready_outs = (begin seed first).1

-- The worker 1 starts and is given the worker 2, proposes a score, and its task is acknowledged.
abbrev at_work : Center
at_work = last_center ready (handle flat (running_state 1) ready)

abbrev at_work_outs : List Out
at_work_outs = last_outs (handle flat (running_state 1) ready)

ready-handle : handle flat (running_state 1) ready ≡ some (at_work, at_work_outs)
unfolding handle begin start broadcast_nodes_topology topology_from announce_children children_from
    send_seed process_running released assign_next get_available is_assigned has_next add_next
    attach blank gempba.Tree.Nodes.make init on_task_sent
ready-handle = refl

others_announced_example : All (λ ks. All (IsNext 1) ks) (nexts_to 1 at_work_outs)
others_announced_example =
    others_announced flat (running_state 1) ready at_work at_work_outs 1 (omega arith) ready-handle

at_work-Reach : Reach flat first seed at_work (ready_outs ++ at_work_outs)
unfolding ends
at_work-Reach = receive begun (running_state 1) ready-handle refl

Reach-Notified_example :
    Notified zero_score 1 at_work (ready_outs ++ at_work_outs)
    × (length at_work.next_processes_sent ≡ 3)
    × (at_work.world_size ≡ 3)
Reach-Notified_example =
    Reach-Notified 3 no_links maximise zero_score 1 at_work-Reach (omega arith) (omega arith)

abbrev improved : Center
improved = last_center at_work (handle flat (score_proposal 1 five) at_work)

abbrev improved_outs : List Out
improved_outs = last_outs (handle flat (score_proposal 1 five) at_work)

at_work-handle : handle flat (score_proposal 1 five) at_work ≡ some (improved, improved_outs)
unfolding handle
at_work-handle = refl

improved-Reach : Reach flat first seed improved ((ready_outs ++ at_work_outs) ++ improved_outs)
unfolding ends
improved-Reach = receive at_work-Reach (score_proposal 1 five) at_work-handle refl

abbrev ended : Center
ended = last_center improved (handle flat (task_received 1) improved)

abbrev ended_outs : List Out
ended_outs = last_outs (handle flat (task_received 1) improved)

improved-handle : handle flat (task_received 1) improved ≡ some (ended, ended_outs)
unfolding handle begin start broadcast_nodes_topology topology_from announce_children children_from
    send_seed process_running released assign_next get_available is_assigned has_next add_next
    attach blank gempba.Tree.Nodes.make init on_task_sent maybe_broadcast_global_score should_update
    compare_score int_value process_task_received_ack on_ack_received
improved-handle = refl

ended_now : ends (task_received 1) ended ≡ true
unfolding ends handle begin start broadcast_nodes_topology topology_from announce_children
    children_from send_seed process_running released assign_next get_available is_assigned has_next
    add_next attach blank gempba.Tree.Nodes.make init on_task_sent maybe_broadcast_global_score
    should_update compare_score int_value process_task_received_ack on_ack_received
ended_now = refl

abbrev all_outs : List Out
all_outs = ((ready_outs ++ at_work_outs) ++ improved_outs) ++ ended_outs

termination_counts_example :
    (endings_to 1 (notify_termination ended)
      ≡ (length (scores_to 1 all_outs), length (nexts_to 1 all_outs)) ∷ [])
    × (last zero_score (scores_to 1 all_outs) ≡ ended.global_score)
termination_counts_example =
    termination_counts 3 no_links maximise zero_score 1 (task_received 1) improved-Reach
      (omega arith) (omega arith) improved-handle ended_now

-- The worker 2 reports back while the worker 1 runs without a next process.
abbrev at_seed : Center
at_seed = record at_work { process_tree = no_links }

release_not_needed : released 2 at_seed.process_tree ≡ ok no_links
unfolding released is_assigned blank gempba.Tree.Nodes.make
release_not_needed = refl

world : at_seed.world_size ≡ 3
world =
    let (told, size, n) =
      Reach-Notified 3 no_links maximise zero_score 1 at_work-Reach (omega arith) (omega arith) in
    n

no_links-size : 2 < no_links.size
unfolding gempba.Tree.Nodes.make
no_links-size = omega arith

no_links-orphan : (no_links.node 2).parent ≡ none
unfolding gempba.Tree.Nodes.make blank
no_links-orphan = refl

process_available_lem_example :
    ((r : ℕ) × (r < at_seed.world_size)
      × Waits at_seed.process_state (λ _. []) r
      × (r ≢ 2)
      × (u : Tree) × Shape u (update (λ _. []) r (2 ∷ []))
      × (process_available 3 2 at_seed
          ≡ some (
            announced_to r 2 u at_seed,
            record_state_msg ∷ next_process r (2 ∷ []) ∷ record_assignment 2 ∷ [],
          )))
    ⊎ (((r : ℕ) → r < at_seed.world_size → r ≢ 2 → ¬ Waits at_seed.process_state (λ _. []) r)
        × (process_available 3 2 at_seed
            ≡ some (left_available 2 no_links at_seed, record_state_msg ∷ [])))
process_available_lem_example =
    process_available_lem 3 2 at_seed no_links (λ _. []) (omega (arith, world))
      (omega (arith, world)) release_not_needed (make-Shape 3) no_links-size no_links-orphan

ended_counts :
    endings_to 1 (notify_termination ended)
    ≡ (length (scores_to 1 all_outs), length (nexts_to 1 all_outs)) ∷ []
ended_counts =
    (termination_counts 3 no_links maximise zero_score 1 (task_received 1) improved-Reach
      (omega arith) (omega arith) improved-handle ended_now).0

-- The worker 1 has received nothing but its task yet.
quiet : accepts_termination (init false) false false ≡ true
unfolding accepts_termination is_quiescent init
quiet = refl

abbrev waiting : Receiver
waiting = record {
  score_updates_received = 0;
  next_processes_received = 0;
  global_score = zero_score;
  next_processes = none ∷ none ∷ [];
}

told_all_example :
    (w' : Receiver) × (process_termination
        (init false)
        false
        false
        (length (scores_to 1 all_outs))
        (length (nexts_to 1 all_outs))
        waiting
        (scores_to 1 all_outs)
        (nexts_to 1 all_outs)
      ≡ drained w' [] [])
    × (w'.global_score ≡ ended.global_score)
    × (w'.next_processes ≡ written (nexts_to 1 all_outs) waiting.next_processes)
told_all_example =
    told_all 3 no_links maximise zero_score 1 (task_received 1) (init false) waiting
      (length (scores_to 1 all_outs)) (length (nexts_to 1 all_outs)) [] (scores_to 1 all_outs) []
      (nexts_to 1 all_outs) improved-Reach (omega arith) (omega arith) improved-handle ended_now
      ended_counts refl refl refl refl refl quiet
