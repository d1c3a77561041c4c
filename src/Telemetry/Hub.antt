-- ===== src/Telemetry/Hub.antt =====
-- telemetry_hub: the frames that a rank publishes, the controls that it obeys, and what the aggregator, the
-- hub of rank 0, keeps. The transport is outside: what it hands over is an argument, what it is given is in
-- the result. A hub is modelled between on_runtime_ready and shutdown.
use gempba.Base.{ℕ, ◌%◌, ◌==◌, if◌then◌else◌, Bool, true, false, List, [], ◌∷◌, Option, none, some}
use gempba.Clock.Defs.{Times, fill}
use gempba.Telemetry.Counters.{Counters, fresh, Totals, load_totals, EdgeCounter, edge_counters}

-- What process_probe, the load balancer and the scheduler put into a worker_frame; a float is its bits.
pub record Sample : Type 0 where
  pub process_cpu_pct : ℕ
  pub process_rss_bytes : ℕ
  pub process_threads : ℕ
  pub idle_microseconds_per_worker : ℕ
  pub idle_microseconds_starved : ℕ
  pub idle_microseconds_imbalanced : ℕ
  pub tasks_running : ℕ
  pub spawn_rejected_pool_full : ℕ
  pub spawn_remote_rejected : ℕ
  pub scheduler_pending_count : ℕ

-- worker_frame
pub record Frame : Type 0 where
  pub version : ℕ
  pub worker_id : ℕ
  pub seq_no : ℕ
  pub snapshot_id : ℕ
  pub worker_local_ms : ℕ
  pub totals : Totals
  pub times : Times
  pub sample : Sample
  pub edges_out : List EdgeCounter

-- What node_probe puts into a node_frame.
pub record HostSample : Type 0 where
  pub hostname : List ℕ
  pub logical_cores : ℕ
  pub mem_total_bytes : ℕ
  pub mem_avail_bytes : ℕ
  pub cgroup_mem_used_bytes : ℕ
  pub cgroup_mem_limit_bytes : ℕ
  -- socket_stats: m_socket_id, m_cpu_pct, m_mem_total_bytes, m_mem_used_bytes
  pub sockets : List (ℕ × ℕ × ℕ × ℕ)

-- node_frame
pub record HostFrame : Type 0 where
  pub version : ℕ
  pub sentinel_worker_id : ℕ
  pub sentinel_local_ms : ℕ
  pub sample : HostSample

pub data ControlKind : Type 0 where
  unspecified be_node_sentinel set_interval_ms pause resume snapshot : ControlKind

-- control_msg
pub record Control : Type 0 where
  pub version : ℕ
  pub kind : ControlKind
  pub value : ℕ

abbrev pub telemetry_schema_version : ℕ
telemetry_schema_version = 2

pub record Aggregator : Type 0 where
  pub latest_worker : ℕ → Option Frame
  pub latest_node : ℕ → Option HostFrame
  pub last_seen_ms : ℕ → Option ℕ

pub record Hub : Type 0 where
  pub rank : ℕ
  pub world_size : ℕ
  pub is_sentinel : Bool
  pub interval_ms : ℕ
  pub paused : Bool
  pub snapshot_requested : ℕ
  pub snapshot_requested_ms : ℕ
  pub snapshot_due : ℕ
  pub snapshot_answered : ℕ
  pub last_rank_emit_ms : ℕ
  pub seq_no : ℕ
  pub counters : Counters
  pub aggregator : Option Aggregator
  pub pending_fanout : List Control

unfoldable pub no_frames : Aggregator
no_frames = record { latest_worker = λ _. none; latest_node = λ _. none; last_seen_ms = λ _. none }

-- The hub of a rank as made, and after on_runtime_ready. Whether the rank is a sentinel is read off the
-- topology. The transport, the server, the run id and the threads that are made there are outside.
unfoldable pub on_runtime_ready : ℕ → ℕ → Bool → Hub
unfolding no_frames fresh
on_runtime_ready rank world_size sentinel = record {
  rank = rank;
  world_size = world_size;
  is_sentinel = sentinel;
  interval_ms = 500;
  paused = false;
  snapshot_requested = 0;
  snapshot_requested_ms = 0;
  snapshot_due = 0;
  snapshot_answered = 0;
  last_rank_emit_ms = 0;
  seq_no = 0;
  counters = fresh world_size;
  aggregator = if rank == 0 then some no_frames else none;
  pending_fanout = [];
}

-- The readings of the clocks, in milliseconds or microseconds, and the samples, in the order of one call of
-- tick_if_due.
pub record Reads : Type 0 where
  pub start_us : ℕ
  pub frame_ms : ℕ
  pub frame_us : ℕ
  pub sample : Sample
  pub host_ms : ℕ
  pub host_sample : HostSample
  pub outstanding_ms : ℕ
  pub drain_ms : ℕ
  pub end_us : ℕ

abbrev pub u32 : ℕ → ℕ
u32 n = n % 4294967296

-- The switch of tick_if_due.
unfoldable pub obey : Control → Hub → Hub
obey m h = elim m.kind [
  | unspecified ↦ h
  | set_interval_ms ↦ record h { interval_ms = m.value }
  | be_node_sentinel ↦ record h { is_sentinel = true }
  | pause ↦ record h { paused = true }
  | resume ↦ record h { paused = false }
  | snapshot ↦ record h { snapshot_due = m.value }
]

unfoldable pub obey_all : List Control → Hub → Hub
obey_all [] h = h
obey_all (m ∷ ms) h = obey_all ms (obey m h)

unfoldable pub snapshot_worker_frame : Reads → Hub → Frame
snapshot_worker_frame r h = record {
  version = telemetry_schema_version;
  worker_id = h.rank;
  seq_no = h.seq_no;
  snapshot_id = h.snapshot_answered;
  worker_local_ms = r.frame_ms;
  totals = load_totals h.counters;
  times = fill r.frame_us h.counters.scheduler_clock;
  sample = r.sample;
  edges_out = edge_counters 0 h.counters.edges_out;
}

unfoldable pub snapshot_node_frame : Reads → Hub → HostFrame
snapshot_node_frame r h = record {
  version = telemetry_schema_version;
  sentinel_worker_id = h.rank;
  sentinel_local_ms = r.host_ms;
  sample = r.host_sample;
}
