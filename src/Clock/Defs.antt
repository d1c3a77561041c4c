-- ===== src/Clock/Defs.antt =====
-- scheduler_clock. All fields are uint64_t: their arithmetic is modulo 2^64, with the sources' sums and
-- differences in `+u` and `-u`. The array `m_assigned_at` is a table, read and written below
-- MAX_WORKERS only. `p_rank` is a uint32_t and is not changed here.
use gempba.Base.{
  ℕ, ◌+◌, ◌-◌, ◌*◌, ◌/◌, ◌%◌, ◌==◌, if◌then◌else◌, ltb, leb, Bool, true, false, ◌||◌, not, List, [],
  ◌∷◌, update,
}

abbrev pub u64 : ℕ → ℕ
u64 n = n % 18446744073709551616

infixl 65 ◌+u◌ ◌-u◌
infixl 70 ◌*u◌
abbrev pub ◌+u◌ : ℕ → ℕ → ℕ
a +u b = u64 (a + b)

abbrev pub ◌-u◌ : ℕ → ℕ → ℕ
a -u b = u64 (a + 18446744073709551616 - b)

abbrev pub ◌*u◌ : ℕ → ℕ → ℕ
a *u b = u64 (a * b)

abbrev pub max_workers : ℕ
max_workers = 1024

abbrev pub unassigned : ℕ
unassigned = 18446744073709551615

pub data Phase : Type 0 where
  none waiting running : Phase

pub record Clock : Type 0 where
  pub in_run : Bool
  pub run_start : ℕ
  pub since : ℕ
  pub phase : Phase
  pub task_seen : Bool
  pub running_time : ℕ
  pub waiting_time : ℕ
  pub first_task_ms : ℕ
  pub last_task_ms : ℕ
  pub assigned_at : ℕ → ℕ
  pub assign_latency_total : ℕ
  pub assign_latency_max : ℕ
  pub assign_count : ℕ
  pub available_ranks : ℕ
  pub queue_empty : Bool
  pub available_queue_empty : ℕ
  pub coordinator_full : Bool
  pub coordinator_full_time : ℕ
  pub last_score_improvement_ms : ℕ

unfoldable pub init : Clock
init = record {
  in_run = false;
  run_start = 0;
  since = 0;
  phase = none;
  task_seen = false;
  running_time = 0;
  waiting_time = 0;
  first_task_ms = 0;
  last_task_ms = 0;
  assigned_at = λ _. unassigned;
  assign_latency_total = 0;
  assign_latency_max = 0;
  assign_count = 0;
  available_ranks = 0;
  queue_empty = true;
  available_queue_empty = 0;
  coordinator_full = false;
  coordinator_full_time = 0;
  last_score_improvement_ms = 0;
}

abbrev is_running : Phase → Bool
is_running running = true
is_running _ = false

abbrev is_waiting : Phase → Bool
is_waiting waiting = true
is_waiting _ = false

unfoldable pub accrue : ℕ → Clock → Clock
accrue now c =
    let elapsed = now -u c.since in
    record c {
      running_time = if is_running c.phase then c.running_time +u elapsed else c.running_time;
      waiting_time = if is_waiting c.phase then c.waiting_time +u elapsed else c.waiting_time;
      available_queue_empty =
          if c.queue_empty
          then c.available_queue_empty +u c.available_ranks *u elapsed
          else c.available_queue_empty;
      coordinator_full_time =
          if c.coordinator_full
          then c.coordinator_full_time +u elapsed
          else c.coordinator_full_time;
      since = now;
    }

abbrev pub ms_of_run : Clock → ℕ → ℕ
ms_of_run c now = (now -u c.run_start) / 1000

unfoldable pub on_run_start : ℕ → Clock → Clock
on_run_start now c = record c { in_run = true; run_start = now; since = now }

unfoldable pub on_run_end : ℕ → Clock → Clock
unfolding accrue
on_run_end now c =
    if not c.in_run then c else record (accrue now c) { phase = none; in_run = false }

unfoldable pub on_worker_waiting : ℕ → Clock → Clock
unfolding accrue
on_worker_waiting now c = if not c.in_run then c else record (accrue now c) {
  phase = waiting;
  last_task_ms = if is_running c.phase then ms_of_run c now else c.last_task_ms;
}

unfoldable pub on_worker_running : ℕ → Clock → Clock
unfolding accrue
on_worker_running now c = if not c.in_run then c else record (accrue now c) {
  phase = running;
  task_seen = true;
  first_task_ms = if not c.task_seen then ms_of_run c now else c.first_task_ms;
}

unfoldable pub on_assignment : ℕ → ℕ → Clock → Clock
on_assignment rank now c =
    if ltb rank max_workers then record c { assigned_at = update c.assigned_at rank now } else c

unfoldable pub on_assignment_accepted : ℕ → ℕ → Clock → Clock
on_assignment_accepted rank now c =
    let latency = now -u c.assigned_at rank in
    if leb max_workers rank || c.assigned_at rank == unassigned then c else record c {
      assigned_at = update c.assigned_at rank unassigned;
      assign_latency_total = c.assign_latency_total +u latency;
      assign_latency_max =
          if ltb c.assign_latency_max latency then latency else c.assign_latency_max;
      assign_count = c.assign_count +u 1;
    }

unfoldable pub on_coordinator_queue : ℕ → Bool → ℕ → Clock → Clock
unfolding accrue
on_coordinator_queue ranks empty now c =
    if not c.in_run
    then c
    else record (accrue now c) { available_ranks = ranks; queue_empty = empty }

unfoldable pub on_coordinator_full : ℕ → Clock → Clock
unfolding accrue
on_coordinator_full now c =
    if not c.in_run || c.coordinator_full
    then c
    else record (accrue now c) { coordinator_full = true }

unfoldable pub on_global_score_improved : ℕ → Clock → Clock
on_global_score_improved now c =
    if c.in_run then record c { last_score_improvement_ms = ms_of_run c now } else c

unfoldable pub on_coordinator_free : ℕ → Clock → Clock
unfolding accrue
on_coordinator_free now c =
    if not c.in_run || not c.coordinator_full
    then c
    else record (accrue now c) { coordinator_full = false }

-- The fields of a worker_frame that `fill` writes.
pub record Times : Type 0 where
  pub sched_running_microseconds : ℕ
  pub sched_waiting_microseconds : ℕ
  pub first_task_ms : ℕ
  pub last_task_ms : ℕ
  pub assign_latency_microseconds_total : ℕ
  pub assign_count : ℕ
  pub assign_latency_microseconds_max : ℕ
  pub available_microseconds_queue_empty : ℕ
  pub coordinator_full_microseconds : ℕ
  pub last_score_improvement_ms : ℕ

unfoldable pub fill : ℕ → Clock → Times
fill now c =
    let open_time = if c.in_run then now -u c.since else 0 in
    record {
      sched_running_microseconds = c.running_time +u (if is_running c.phase then open_time else 0);
      sched_waiting_microseconds = c.waiting_time +u (if is_waiting c.phase then open_time else 0);
      first_task_ms = c.first_task_ms;
      last_task_ms = c.last_task_ms;
      assign_latency_microseconds_total = c.assign_latency_total;
      assign_count = c.assign_count;
      assign_latency_microseconds_max = c.assign_latency_max;
      available_microseconds_queue_empty =
          c.available_queue_empty +u (if c.queue_empty then c.available_ranks *u open_time else 0);
      coordinator_full_microseconds =
          c.coordinator_full_time +u (if c.coordinator_full then open_time else 0);
      last_score_improvement_ms = c.last_score_improvement_ms;
    }

-- The events, each stamped with its time.
pub data Event : Type 0 where
  run_start run_end worker_waiting worker_running : Event
  assignment assignment_accepted : ℕ → Event
  coordinator_queue : ℕ → Bool → Event
  coordinator_full coordinator_free global_score_improved : Event

unfoldable pub step : ℕ → Event → Clock → Clock
unfolding on_run_start on_run_end on_worker_waiting on_worker_running on_assignment
    on_assignment_accepted on_coordinator_queue on_coordinator_full on_coordinator_free
    on_global_score_improved
step now run_start = on_run_start now
step now run_end = on_run_end now
step now worker_waiting = on_worker_waiting now
step now worker_running = on_worker_running now
step now (assignment rank) = on_assignment rank now
step now (assignment_accepted rank) = on_assignment_accepted rank now
step now (coordinator_queue ranks empty) = on_coordinator_queue ranks empty now
step now coordinator_full = on_coordinator_full now
step now coordinator_free = on_coordinator_free now
step now global_score_improved = on_global_score_improved now

unfoldable pub run : Clock → List (ℕ × Event) → Clock
run c [] = c
run c ((now, e) ∷ es) = run (step now e c) es
