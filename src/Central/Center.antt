-- ===== src/Central/Center.antt =====
-- mpi_centralized_scheduler.hpp: the state of the center and what it does with each message. What it sends
-- and what it records is a list. Times are in microseconds. A message names its sender, `src`.
use gempba.Base.{
  ℕ, zero, suc, ◌+◌, ◌-◌, ◌*◌, ltb, leb, if◌then◌else◌, Bool, true, false, ◌&&◌, ◌||◌, List, [],
  ◌∷◌, ◌++◌, Option, none, some, length, set,
}
use gempba.Base.Messages.{to_ranks}
use gempba.Base.Int.{ℤ, incr, decr}
use gempba.Score.Defs.{Score, Floats, Goal, should_broadcast_global}
use gempba.Termination.Detector.{Detector, on_task_sent, on_task_received}
use gempba.Central.Tasks.{Bundle, push}
use gempba.Central.Dispatch.{State, running, available, Dispatched, dispatch_to_available}

-- The counters of default_mpi_stats that the center keeps.
pub record Stats : Type 0 where
  pub received_task_count : ℕ
  pub sent_task_count : ℕ
  pub total_requested_tasks : ℕ
  pub coordinator_messages_handled : ℕ

pub record Center : Type 0 where
  pub world_size : ℕ
  pub process_state : List State
  pub nodes_running : ℤ
  pub nodes_available : ℤ
  pub queue : List Bundle
  pub max_queue_size : ℕ
  pub center_last_full_status : Bool
  pub time_centerfull_sent : ℕ
  pub goal : Goal
  pub global_score : Score
  pub score_updates_sent : ℕ
  pub fullness_notices_sent : ℕ
  pub termination : Detector
  pub received_tasks : ℕ
  pub sent_tasks : ℕ
  pub total_requests_number : ℕ
  pub stats : Stats

-- A message to a rank, or a call of the telemetry hub.
pub data Out : Type 0 where
  task_from_center : ℕ → Bundle → Out
  task_received : ℕ → Out
  score_update : ℕ → Score → Out
  center_is_full center_is_free : ℕ → Out
  termination_notice : ℕ → ℕ → ℕ → Out
  record_state_msg : Out
  record_assignment_accepted : ℕ → Out
  record_assignment : ℕ → Out
  record_send : ℕ → Bundle → Out
  record_recv : ℕ → Bundle → Out
  record_score_proposal record_score_broadcast record_score_improved : Out
  record_full record_free : Out

abbrev pub requested : Stats → Stats
requested s = record s { total_requested_tasks = s.total_requested_tasks + 1 }

abbrev pub handled : Stats → Stats
handled s = record s { coordinator_messages_handled = s.coordinator_messages_handled + 1 }

unfoldable pub process_running : ℕ → Center → Center × List Out
process_running src c = (
  record c {
    process_state = set c.process_state src running;
    nodes_running = incr c.nodes_running;
    total_requests_number = c.total_requests_number + 1;
    stats = handled (requested c.stats);
  },
  record_state_msg ∷ record_assignment_accepted src ∷ [],
)

unfoldable pub process_available : ℕ → Center → Center × List Out
process_available src c = (
  record c {
    process_state = set c.process_state src available;
    nodes_available = incr c.nodes_available;
    nodes_running = decr c.nodes_running;
    total_requests_number = c.total_requests_number + 1;
    stats = handled (requested c.stats);
  },
  record_state_msg ∷ [],
)

abbrev pub to_workers : Center → (ℕ → Out) → List Out
to_workers c f = to_ranks 1 (c.world_size - 1) f

unfoldable pub maybe_broadcast_global_score : Floats → Score → Center → Center × List Out
maybe_broadcast_global_score fl new c =
    if should_broadcast_global fl c.goal c.global_score new
    then (
      record c {
        global_score = new;
        score_updates_sent = c.score_updates_sent + 1;
        total_requests_number = c.total_requests_number + 1;
        stats = requested (handled (handled c.stats));
      },
      record_score_proposal ∷ to_workers c (λ r. score_update r new)
          ++ record_score_broadcast ∷ record_score_improved ∷ [],
    )
    else (record c { stats = handled c.stats }, record_score_proposal ∷ [])

abbrev pub tasks_per_process : ℕ
tasks_per_process = 1000

abbrev pub max_memory_mb : ℕ
max_memory_mb = 10240

abbrev pub ack_to : Option ℕ → List Out
ack_to none = []
ack_to (some r) = task_received r ∷ []

unfoldable pub process_task_for_center : ℕ → Bundle → ℕ → Center → Center × List Out
process_task_for_center src b now c =
    let q = push b c.queue in
    let (d, ack) = on_task_received c.termination src in
    let old =
      ltb (2 * tasks_per_process * c.world_size) (length q)
      && ltb (c.time_centerfull_sent + 1000000) now in
    (
      record c {
        queue = q;
        termination = d;
        max_queue_size = if ltb c.max_queue_size (length q) then length q else c.max_queue_size;
        total_requests_number = c.total_requests_number + 1;
        received_tasks = c.received_tasks + 1;
        stats = handled (record c.stats {
          total_requested_tasks = c.stats.total_requested_tasks + 1;
          received_task_count = c.stats.received_task_count + 1;
        });
        center_last_full_status = if old then false else c.center_last_full_status;
      },
      ack_to ack ++ record_recv src b ∷ [],
    )

unfoldable pub notify_center_full : ℕ → ℕ → Center → Center × List Out
notify_center_full memory now c =
    if ltb max_memory_mb memory || ltb (tasks_per_process * c.world_size) (length c.queue)
    then (
      record c {
        fullness_notices_sent = c.fullness_notices_sent + 1;
        center_last_full_status = true;
        time_centerfull_sent = now;
      },
      to_workers c center_is_full ++ record_full ∷ [],
    )
    else (c, [])

-- 0.9 * MAX_MEMORY_MB is 9216, and CENTER_NBSTORED_TASKS_PER_PROCESS * 0.8 is 800, also as doubles.
unfoldable pub notify_center_free : ℕ → Center → Center × List Out
notify_center_free memory c =
    if leb memory 9216 && ltb (length c.queue) (800 * c.world_size)
    then (
      record c {
        fullness_notices_sent = c.fullness_notices_sent + 1;
        center_last_full_status = false;
      },
      to_workers c center_is_free ++ record_free ∷ [],
    )
    else (c, [])

unfoldable pub monitor_and_notify_center_status : ℕ → ℕ → Center → Center × List Out
unfolding notify_center_full notify_center_free
monitor_and_notify_center_status memory now c =
    if c.center_last_full_status
    then notify_center_free memory c
    else notify_center_full memory now c

-- The lambda of `clear_buffer`: what changes with a task that is handed out.
abbrev pub handed : Center → Center
handed c = record c {
  termination = on_task_sent c.termination;
  sent_tasks = c.sent_tasks + 1;
  total_requests_number = c.total_requests_number + 1;
  stats = handled (record c.stats {
    sent_task_count = c.stats.sent_task_count + 1;
    total_requested_tasks = c.stats.total_requested_tasks + 1;
  });
}

abbrev pub hand_out : List (ℕ × Bundle) → Center → Center × List Out
hand_out [] c = (c, [])
hand_out ((r, b) ∷ sent) c =
    let (c', outs) = hand_out sent (handed c) in
    (c', task_from_center r b ∷ record_send r b ∷ record_assignment r ∷ outs)

abbrev pub minus : ℕ → ℤ → ℤ
minus zero z = z
minus (suc n) z = minus n (decr z)

abbrev pub dispatched : Dispatched Bundle → Center → Center
dispatched d c = record c {
  process_state = d.states;
  queue = d.queue;
  nodes_available = minus (length d.sent) c.nodes_available;
}

unfoldable pub clear_buffer : Center → Center × List Out
clear_buffer c =
    let d = dispatch_to_available c.process_state c.queue in hand_out d.sent (dispatched d c)

unfoldable pub send_seed : Bundle → Center → Center × List Out
send_seed b c = (
  record c {
    nodes_available = decr c.nodes_available;
    process_state = set c.process_state 1 running;
    termination = on_task_sent c.termination;
    sent_tasks = c.sent_tasks + 1;
    total_requests_number = c.total_requests_number + 1;
    stats = handled (record c.stats {
      sent_task_count = c.stats.sent_task_count + 1;
      total_requested_tasks = c.stats.total_requested_tasks + 1;
    });
  },
  task_from_center 1 b ∷ record_send 1 b ∷ record_assignment 1 ∷ [],
)

unfoldable pub notify_termination : Center → List Out
notify_termination c =
    to_workers c (λ r. termination_notice r c.score_updates_sent c.fullness_notices_sent)
