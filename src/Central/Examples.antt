-- ===== src/Central/Examples.antt =====
-- Runs of the theorems on the centralized scheduler, in a world of three ranks.
use gempba.Base.{
  ◌==◌, if◌then◌else◌, ap, ℕ, ◌+◌, ◌≡◌, ◌≢◌, ◌⊎◌, refl, List, [], ◌∷◌, ◌++◌, some, length, drop,
  get_elem?, arith,
}
use gempba.Score.Defs.{
  ScoreType, i32, u_i32, i64, u_i64, f32, f64, f128, Score, Floats, equivalent, maximise,
  should_update, compare_score, int_value,
}
use gempba.Termination.Detector.{init, on_task_sent, on_ack_received}
use gempba.Termination.Handlers.{process_task_received_ack}
use gempba.Central.Tasks.{Bundle}
use gempba.Central.Dispatch.{
  State, running, assigned, available, dispatch_from, dispatch_to_available, zip, available_from,
  assign, dispatch_to_available_lem,
}
use gempba.Central.Center.{
  Center, Out, send_seed, clear_buffer, monitor_and_notify_center_status, notify_center_full,
  notify_center_free, maybe_broadcast_global_score, process_running,
}
use gempba.Central.Loop.{
  running_state, score_proposal, task_received, start, handle, is_over, tidy, close, round,
  finished, continues, next_center, next_outs, Reach, seeded, receive,
}
use gempba.Central.Invariant.{Counted}
use gempba.Central.Statistics.{proposals, Reach-Statistics}
use gempba.Central.Notices.{scores_to, fullness_to}
use gempba.Central.Told.{Told, Agrees}
use gempba.Central.Worker.{Worker, drained, drain_center_messages}
use gempba.Central.Results.{
  Result, Collected, received, send_final_solution_to_center, receive_solution_from, late,
  after_states, with_result, receive_solution_from-send_final_solution_to_center,
}
use gempba.Central.Run.{Reach-Told, fresh, final_drain}

abbrev tasks : List ℕ
tasks = 10 ∷ 20 ∷ []

abbrev states : List State
states = running ∷ assigned ∷ available ∷ []

dispatch_to_available_lem_example :
    let d = dispatch_to_available (available ∷ states) tasks in
    let n = length d.sent in
    (d.sent ≡ zip (available_from 1 states) tasks)
    × (d.queue ≡ drop n tasks)
    × (d.states ≡ available ∷ assign n states)
    × ((d.queue ≡ []) ⊎ (n ≡ length (available_from 1 states)))
dispatch_to_available_lem_example = dispatch_to_available_lem available states tasks

abbrev flat : Floats
flat = record {
  LongDouble = ℕ;
  of_int = λ _. 0;
  of_f32 = λ b. b;
  of_f64 = λ b. b;
  of_f128 = λ b. b;
  ldbl_min = 1;
  ldbl_max = 2;
  compare_ld = λ _ _. equivalent;
}

abbrev zero_score : Score
zero_score = record { kind = i32; payload = 0 }

abbrev five : Score
five = record { kind = i32; payload = 5 }

abbrev seed : Bundle
seed = record { bytes = 3 ∷ 1 ∷ []; runnable_id = 7 }

abbrev begun : Center
begun = (send_seed seed (start 3 maximise zero_score)).0

abbrev begun_outs : List Out
begun_outs = (send_seed seed (start 3 maximise zero_score)).1

-- The worker 1 starts, proposes a score, and its task is acknowledged.
abbrev at_work : Center
at_work = next_center begun (round flat 100 0 (running_state 1) begun)

abbrev at_work_outs : List Out
at_work_outs = next_outs (round flat 100 0 (running_state 1) begun)

begun-round : round flat 100 0 (running_state 1) begun ≡ continues at_work at_work_outs
unfolding round close handle tidy is_over clear_buffer monitor_and_notify_center_status
    notify_center_full notify_center_free send_seed start process_running dispatch_to_available
    dispatch_from init on_task_sent
begun-round = refl

begun_expected : get_elem? begun.process_state 1 ≢ some available
unfolding send_seed start
begun_expected e = cc

at_work-Reach : Reach flat 3 maximise zero_score seed at_work (begun_outs ++ at_work_outs)
unfolding send_seed start
at_work-Reach =
    receive seeded 100 0 (running_state 1) (omega arith, omega arith, begun_expected) begun-round

abbrev improved : Center
improved = next_center at_work (round flat 100 5 (score_proposal 1 five) at_work)

abbrev improved_outs : List Out
improved_outs = next_outs (round flat 100 5 (score_proposal 1 five) at_work)

improved-round : round flat 100 5 (score_proposal 1 five) at_work ≡ continues improved improved_outs
unfolding round close handle tidy is_over clear_buffer monitor_and_notify_center_status
    notify_center_full notify_center_free send_seed start process_running dispatch_to_available
    dispatch_from init on_task_sent maybe_broadcast_global_score should_update compare_score
    int_value
improved-round = refl

improved-Reach :
    Reach flat 3 maximise zero_score seed improved ((begun_outs ++ at_work_outs) ++ improved_outs)
improved-Reach = receive at_work-Reach 100 5 (score_proposal 1 five) tt improved-round

Reach-Statistics_example :
    Counted improved
    × (improved.stats.total_requested_tasks ≡ improved.total_requests_number)
    × (improved.stats.coordinator_messages_handled
        ≡ improved.total_requests_number
          + proposals ((begun_outs ++ at_work_outs) ++ improved_outs))
Reach-Statistics_example = Reach-Statistics improved-Reach (omega arith)

Reach-Told_example :
    (improved.world_size ≡ 3)
    × Told zero_score 2 improved ((begun_outs ++ at_work_outs) ++ improved_outs)
    × Agrees 2 improved ((begun_outs ++ at_work_outs) ++ improved_outs)
Reach-Told_example = Reach-Told 2 improved-Reach (omega arith) (omega arith)

abbrev ended : Center
ended = next_center improved (round flat 100 9 (task_received 1) improved)

abbrev ended_outs : List Out
ended_outs = next_outs (round flat 100 9 (task_received 1) improved)

ended-round : round flat 100 9 (task_received 1) improved ≡ finished ended ended_outs
unfolding round close handle tidy is_over clear_buffer monitor_and_notify_center_status
    notify_center_full notify_center_free send_seed start process_running dispatch_to_available
    dispatch_from init on_task_sent maybe_broadcast_global_score should_update compare_score
    int_value process_task_received_ack on_ack_received
ended-round = refl

sent_scores :
    scores_to 2 (((begun_outs ++ at_work_outs) ++ improved_outs) ++ ended_outs) ≡ five ∷ []
unfolding round close handle tidy is_over clear_buffer monitor_and_notify_center_status
    notify_center_full notify_center_free send_seed start process_running dispatch_to_available
    dispatch_from init on_task_sent maybe_broadcast_global_score should_update compare_score
    int_value process_task_received_ack on_ack_received
sent_scores = refl

sent_notices : fullness_to 2 (((begun_outs ++ at_work_outs) ++ improved_outs) ++ ended_outs) ≡ []
unfolding round close handle tidy is_over clear_buffer monitor_and_notify_center_status
    notify_center_full notify_center_free send_seed start process_running dispatch_to_available
    dispatch_from init on_task_sent maybe_broadcast_global_score should_update compare_score
    int_value process_task_received_ack on_ack_received
sent_notices = refl

-- The worker 2 has not yet received the score.
final_drain_example :
    (w' : Worker) × (drain_center_messages ended.score_updates_sent ended.fullness_notices_sent
        (fresh zero_score)
        (five ∷ [])
        []
      ≡ drained w' [] [])
    × (w'.global_score ≡ ended.global_score)
    × (w'.is_center_full ≡ ended.center_last_full_status)
final_drain_example =
    final_drain 2 100 9 (task_received 1) (fresh zero_score) [] (five ∷ []) [] [] improved-Reach
      (omega arith) (omega arith) tt ended-round sent_scores sent_notices refl

abbrev kind_code : ScoreType → ℕ
kind_code i32 = 0
kind_code u_i32 = 1
kind_code i64 = 2
kind_code u_i64 = 3
kind_code f32 = 4
kind_code f64 = 5
kind_code f128 = 6

abbrev kind_of : ℕ → ScoreType
kind_of k =
    if k == 0
    then i32
    else if k == 1
    then u_i32
    else if k == 2
    then i64
    else if k == 3
    then u_i64
    else if k == 4
    then f32
    else if k == 5
    then f64
    else f128

abbrev copy_out : Score → List ℕ
copy_out s = kind_code s.kind ∷ s.payload ∷ []

abbrev copy_back : List ℕ → Score
copy_back [] = zero_score
copy_back (k ∷ []) = zero_score
copy_back (k ∷ p ∷ l) = record { kind = kind_of k; payload = p }

kind_lem : (k : ScoreType) → kind_of (kind_code k) ≡ k
kind_lem i32 = refl
kind_lem u_i32 = refl
kind_lem i64 = refl
kind_lem u_i64 = refl
kind_lem f32 = refl
kind_lem f64 = refl
kind_lem f128 = refl

copied : (s : Score) → copy_back (copy_out s) ≡ s
copied s = ap (λ k. record { kind = k; payload = s.payload }) (kind_lem s.kind)

abbrev empty_result : Result
empty_result = record { score = record { kind = i32; payload = 4294967295 }; packet = [] }

abbrev books : Collected
books = record {
  best_results = empty_result ∷ empty_result ∷ empty_result ∷ [];
  total_requests_number = 4;
  total_requested_tasks = 4;
  coordinator_messages_handled = 6;
}

abbrev found : Result
found = record { score = five; packet = 1 ∷ 2 ∷ [] }

receive_solution_from-send_final_solution_to_center_example :
    receive_solution_from copy_out copy_back 2
      (late 2 (send_final_solution_to_center copy_out copy_back (some found)))
      books
    ≡ received (with_result 2 (some found) (after_states 2 books)) []
receive_solution_from-send_final_solution_to_center_example =
    receive_solution_from-send_final_solution_to_center copy_out copy_back 2 2 (some found) books
      copied
