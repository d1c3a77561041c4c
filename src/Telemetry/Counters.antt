-- ===== src/Telemetry/Counters.antt =====
-- telemetry_hub::counters and the recording functions, each atomic counter a number modulo 2^64. Times are
-- readings of monotonic_us.
use gempba.Base.{ℕ, ◌+◌, ◌/◌, ◌==◌, if◌then◌else◌, ltb, List, [], ◌∷◌, length, zero, suc}
use gempba.Clock.Defs.{Clock, Event, ◌+u◌, init, step}

pub record EdgeSlot : Type 0 where
  pub bytes : ℕ
  pub count : ℕ

pub record Counters : Type 0 where
  pub tasks_started_total : ℕ
  pub tasks_sent_total : ℕ
  pub tasks_recv_total : ℕ
  pub bytes_sent_total : ℕ
  pub bytes_recv_total : ℕ
  pub send_nanoseconds_total : ℕ
  pub recv_nanoseconds_total : ℕ
  pub coordinator_state_msgs_total : ℕ
  pub coordinator_score_proposals_total : ℕ
  pub coordinator_score_broadcasts_total : ℕ
  pub score_proposals_sent : ℕ
  pub telemetry_microseconds_total : ℕ
  pub edges_out : List EdgeSlot
  pub scheduler_clock : Clock

unfoldable pub no_edges : ℕ → List EdgeSlot
no_edges zero = []
no_edges (suc n) = record { bytes = 0; count = 0 } ∷ no_edges n

-- As made, with the slots of on_runtime_ready for a world of `n` ranks.
unfoldable pub fresh : ℕ → Counters
unfolding no_edges init
fresh n = record {
  tasks_started_total = 0;
  tasks_sent_total = 0;
  tasks_recv_total = 0;
  bytes_sent_total = 0;
  bytes_recv_total = 0;
  send_nanoseconds_total = 0;
  recv_nanoseconds_total = 0;
  coordinator_state_msgs_total = 0;
  coordinator_score_proposals_total = 0;
  coordinator_score_broadcasts_total = 0;
  score_proposals_sent = 0;
  telemetry_microseconds_total = 0;
  edges_out = no_edges n;
  scheduler_clock = init;
}

-- The slot of a destination; there is none beyond the world.
unfoldable pub count_edge : ℕ → ℕ → List EdgeSlot → List EdgeSlot
count_edge dst bytes [] = []
count_edge zero bytes (e ∷ es) = record { bytes = e.bytes +u bytes; count = e.count +u 1 } ∷ es
count_edge (suc dst) bytes (e ∷ es) = e ∷ count_edge dst bytes es

unfoldable pub count_send : ℕ → ℕ → ℕ → Counters → Counters
unfolding count_edge
count_send dst bytes elapsed c = record c {
  edges_out =
      if ltb dst (length c.edges_out) then count_edge dst bytes c.edges_out else c.edges_out;
  tasks_sent_total = c.tasks_sent_total +u 1;
  bytes_sent_total = c.bytes_sent_total +u bytes;
  send_nanoseconds_total = c.send_nanoseconds_total +u elapsed;
}

unfoldable pub count_recv : ℕ → ℕ → Counters → Counters
count_recv bytes elapsed c = record c {
  tasks_recv_total = c.tasks_recv_total +u 1;
  bytes_recv_total = c.bytes_recv_total +u bytes;
  recv_nanoseconds_total = c.recv_nanoseconds_total +u elapsed;
}

-- A call of a recording function, with what it is given. `clocked` is one of those that pass an event on to
-- the clock under its mutex, such as record_run_start and record_assignment.
pub data Call : Type 0 where
  record_send record_recv : ℕ → ℕ → ℕ → Call
  record_task_local record_coordinator_state_msg record_coordinator_score_proposal : Call
  record_coordinator_score_broadcast record_score_proposal_sent : Call
  clocked : ℕ → Event → Call

unfoldable pub record_call : Call → Counters → Counters
unfolding count_send count_recv step
record_call (record_send dst bytes elapsed) c = count_send dst bytes elapsed c
record_call (record_recv src bytes elapsed) c = count_recv bytes elapsed c
record_call record_task_local c = record c { tasks_started_total = c.tasks_started_total +u 1 }
record_call record_coordinator_state_msg c = record c {
  coordinator_state_msgs_total = c.coordinator_state_msgs_total +u 1;
}
record_call record_coordinator_score_proposal c = record c {
  coordinator_score_proposals_total = c.coordinator_score_proposals_total +u 1;
}
record_call record_coordinator_score_broadcast c = record c {
  coordinator_score_broadcasts_total = c.coordinator_score_broadcasts_total +u 1;
}
record_call record_score_proposal_sent c = record c {
  score_proposals_sent = c.score_proposals_sent +u 1;
}
record_call (clocked now e) c = record c { scheduler_clock = step now e c.scheduler_clock }

unfoldable pub record_calls : List Call → Counters → Counters
record_calls [] c = c
record_calls (e ∷ es) c = record_calls es (record_call e c)

-- The fields of a worker_frame that are read off the counters, but for the edges.
pub record Totals : Type 0 where
  pub tasks_started_total : ℕ
  pub tasks_sent_total : ℕ
  pub tasks_recv_total : ℕ
  pub bytes_sent_total : ℕ
  pub bytes_recv_total : ℕ
  pub send_microseconds_total : ℕ
  pub recv_microseconds_total : ℕ
  pub coordinator_state_msgs_total : ℕ
  pub coordinator_score_proposals_total : ℕ
  pub coordinator_score_broadcasts_total : ℕ
  pub score_proposals_sent : ℕ
  pub telemetry_microseconds_total : ℕ

unfoldable pub load_totals : Counters → Totals
load_totals c = record {
  tasks_started_total = c.tasks_started_total;
  tasks_sent_total = c.tasks_sent_total;
  tasks_recv_total = c.tasks_recv_total;
  bytes_sent_total = c.bytes_sent_total;
  bytes_recv_total = c.bytes_recv_total;
  send_microseconds_total = c.send_nanoseconds_total / 1000;
  recv_microseconds_total = c.recv_nanoseconds_total / 1000;
  coordinator_state_msgs_total = c.coordinator_state_msgs_total;
  coordinator_score_proposals_total = c.coordinator_score_proposals_total;
  coordinator_score_broadcasts_total = c.coordinator_score_broadcasts_total;
  score_proposals_sent = c.score_proposals_sent;
  telemetry_microseconds_total = c.telemetry_microseconds_total;
}

pub record EdgeCounter : Type 0 where
  pub dst_worker_id : ℕ
  pub bytes : ℕ
  pub count : ℕ

-- The loop over the slots, from slot `i` on: a slot that was never counted is left out.
unfoldable pub edge_counters : ℕ → List EdgeSlot → List EdgeCounter
edge_counters i [] = []
edge_counters i (e ∷ es) =
    let rest = edge_counters (i + 1) es in
    if e.count == 0
    then rest
    else record { dst_worker_id = i; bytes = e.bytes; count = e.count } ∷ rest
