-- ===== src/Telemetry/Examples.antt =====
-- Two ranks, and a client that asks rank 0 for a snapshot.
use gempba.Base.{
  ℕ, zero, suc, ◌+◌, ◌%◌, ◌<◌, ◌≡◌, ◌≢◌, refl, sym, true, false, List, [], ◌∷◌, ◌++◌, update, arith,
}
use mathlib.Core.List.{append-nil}
use gempba.Clock.Defs.{worker_running}
use gempba.Telemetry.Counters.{
  Call, record_send, record_task_local, clocked, fresh, record_calls, edge_counters, load_totals,
}
use gempba.Telemetry.Traffic.{sum_counts, sum_bytes, record_calls_lem}
use gempba.Telemetry.Hub.{
  Frame, snapshot, Reads, on_runtime_ready, no_frames, obey, obey_all, snapshot_worker_frame,
}
use gempba.Telemetry.Tick.{
  emit, publish, to_others, fan_out, pump, may_drain, ingest, drain_inbound_frames, keep_workers,
  keep_nodes, count_time, tick_if_due, apply_control_from_client, request_snapshot,
  snapshot_outstanding, any_behind,
}
use gempba.Telemetry.World.{
  World, start, moved, none_left, take_one, client, controls_in, frames_out, controls_out,
  frames_in, Reach, here, next,
}
use gempba.Telemetry.Delivery.{kept_id}
use gempba.Telemetry.Answering.{snapshot_complete, tick_answers}

abbrev calls : List Call
calls =
    record_send 1 100 5
    ∷ record_task_local
    ∷ record_send 2 30 5
    ∷ clocked 9 worker_running
    ∷ record_send 1 7 5
    ∷ []

record_calls_lem_example :
    let c = record_calls calls (fresh 3) in
    let edges = edge_counters 0 c.edges_out in
    (sum_counts edges ≡ (load_totals c).tasks_sent_total)
    × ((load_totals c).tasks_sent_total ≡ 3)
    × (sum_bytes edges % 18446744073709551616 ≡ (load_totals c).bytes_sent_total)
record_calls_lem_example = record_calls_lem 3 calls (omega arith) (omega arith)

abbrev reads : Reads
reads = record {
  start_us = 0;
  frame_ms = 0;
  frame_us = 0;
  sample = record {
    process_cpu_pct = 0;
    process_rss_bytes = 0;
    process_threads = 1;
    idle_microseconds_per_worker = 0;
    idle_microseconds_starved = 0;
    idle_microseconds_imbalanced = 0;
    tasks_running = 0;
    spawn_rejected_pool_full = 0;
    spawn_remote_rejected = 0;
    scheduler_pending_count = 0;
  };
  host_ms = 0;
  host_sample = record {
    hostname = [];
    logical_cores = 1;
    mem_total_bytes = 0;
    mem_avail_bytes = 0;
    cgroup_mem_used_bytes = 0;
    cgroup_mem_limit_bytes = 0;
    sockets = [];
  };
  outstanding_ms = 0;
  drain_ms = 0;
  end_us = 0;
}

abbrev begun : World
begun = start 2 (λ _. false)

abbrev requested : World
requested = record begun {
  hub = update begun.hub 0 (apply_control_from_client 0 snapshot 0 (begun.hub 0));
}

-- Rank 0 publishes its frame,
abbrev shown : World
shown =
    moved requested 0 (emit reads (requested.hub 0)).0 (requested.controls 0) []
      (update requested.frames 0 (requested.frames 0 ++ (emit reads (requested.hub 0)).1))

-- and tells rank 1.
abbrev told : World
told =
    moved shown 0 (record (shown.hub 0) { pending_fanout = [] }) (shown.controls 0)
      (fan_out (shown.hub 0).rank (shown.hub 0).world_size (shown.hub 0).pending_fanout)
      shown.frames

few : (begun.hub 0).snapshot_requested + 1 < 4294967296
unfolding start on_runtime_ready
few = omega arith

not_yet : (told.hub 1).snapshot_answered ≢ (told.hub 0).snapshot_requested
unfolding start on_runtime_ready no_frames apply_control_from_client request_snapshot emit publish
    pump obey obey_all fan_out to_others tick_if_due count_time ingest may_drain
    drain_inbound_frames keep_workers keep_nodes any_behind snapshot_worker_frame
not_yet e = cc

told_reached : Reach 2 begun told
told_reached =
    next (next (next here (client 0 snapshot 0 few)) (frames_out 0 reads (omega arith)))
      (controls_out 0 (omega arith))

nothing_pending : (told.hub 0).pending_fanout ≡ []
nothing_pending = refl

tick_answers_example :
    (f : Frame) × ((tick_if_due reads (told.controls 1) [] [] (told.hub 1)).1.workers ≡ f ∷ [])
    × (f.snapshot_id ≡ (told.hub 0).snapshot_requested)
    × (f.worker_id ≡ 1)
tick_answers_example =
    tick_answers 2 (λ _. false) told 1 reads [] [] told_reached (omega arith) nothing_pending
      not_yet

-- Rank 1 obeys and publishes its frame.
abbrev obeyed : World
obeyed = moved told 1 (obey_all (told.controls 1) (told.hub 1)) [] [] told.frames

abbrev answered : World
answered =
    moved obeyed 1 (emit reads (obeyed.hub 1)).0 (obeyed.controls 1) []
      (update obeyed.frames 1 (obeyed.frames 1 ++ (emit reads (obeyed.hub 1)).1))

abbrev first : List Frame → Frame
first [] = snapshot_worker_frame reads (on_runtime_ready 0 1 false)
first (f ∷ fs) = f

-- Rank 0 takes both frames.
abbrev arrived : List (ℕ × Frame)
arrived = (0, first (answered.frames 0)) ∷ (1, first (answered.frames 1)) ∷ []

abbrev kept : World
kept =
    moved answered 0 (count_time reads true (ingest reads arrived [] (answered.hub 0)).0)
      (answered.controls 0) [] (update (update answered.frames 0 []) 1 [])

kept_reached : Reach 2 begun kept
unfolding start on_runtime_ready no_frames apply_control_from_client request_snapshot emit publish
    pump obey obey_all fan_out to_others tick_if_due count_time ingest may_drain
    drain_inbound_frames keep_workers keep_nodes any_behind snapshot_worker_frame
kept_reached =
    next
      (next
        (next told_reached
          (controls_in 1 (told.controls 1) [] (omega arith) (sym (append-nil (told.controls 1)))))
        (frames_out 1 reads (omega arith)))
      (frames_in 0 reads arrived [] true _ (omega arith)
        (take_one 0 (first (answered.frames 0)) [] refl
          (take_one 1 (first (answered.frames 1)) [] refl none_left))
        (λ h. cc))

nothing_on_the_way :
    (i : ℕ)
    → i < 2
    → (kept.controls i ≡ []) × (kept.frames i ≡ []) × ((kept.hub i).snapshot_due ≡ 0)
unfolding start on_runtime_ready no_frames apply_control_from_client request_snapshot emit publish
    pump obey obey_all fan_out to_others tick_if_due count_time ingest may_drain
    drain_inbound_frames keep_workers keep_nodes any_behind snapshot_worker_frame
nothing_on_the_way zero lt = (refl, refl, refl)
nothing_on_the_way (suc zero) lt = (refl, refl, refl)
nothing_on_the_way (suc (suc i)) lt = absurd (omega arith)

still_nothing_pending : (kept.hub 0).pending_fanout ≡ []
unfolding start on_runtime_ready no_frames apply_control_from_client request_snapshot emit publish
    pump obey obey_all fan_out to_others tick_if_due count_time ingest may_drain
    drain_inbound_frames keep_workers keep_nodes any_behind snapshot_worker_frame
still_nothing_pending = refl

snapshot_complete_example :
    ((i : ℕ) → i < 2 → kept_id (kept.hub 0).aggregator i ≡ (kept.hub 0).snapshot_requested)
    × ((now : ℕ) → snapshot_outstanding now (kept.hub 0) ≡ false)
snapshot_complete_example =
    snapshot_complete 2 (λ _. false) kept kept_reached (omega arith) still_nothing_pending
      nothing_on_the_way
