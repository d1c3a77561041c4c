-- ===== src/Telemetry/Tick.antt =====
-- telemetry_hub: tick_if_due, and what a client asks for.
use gempba.Base.{
  ℕ, zero, suc, ◌+◌, ◌/◌, ◌==◌, if◌then◌else◌, ltb, leb, Bool, true, false, ◌&&◌, ◌||◌, not, List,
  [], ◌∷◌, ◌++◌, Option, none, some, update,
}
use gempba.Clock.Defs.{◌+u◌, ◌-u◌}
use gempba.Telemetry.Hub.{
  Frame, HostFrame, ControlKind, unspecified, be_node_sentinel, set_interval_ms, pause, resume,
  snapshot, Control, telemetry_schema_version, Aggregator, Hub, Reads, u32, obey_all,
  snapshot_worker_frame, snapshot_node_frame,
}

-- What a tick gives to the transport: frames, and controls with their destinations.
pub record Sent : Type 0 where
  pub workers : List Frame
  pub nodes : List HostFrame
  pub controls : List (ℕ × Control)

-- The body under the test whether a frame is due, with the request to answer, or 0.
unfoldable pub publish : Reads → ℕ → Hub → Hub × List Frame × List HostFrame
publish r requested h =
    let h' = record h {
      snapshot_answered = if not (requested == 0) then requested else h.snapshot_answered;
      seq_no = u32 (h.seq_no + 1);
    } in
    (
      record h' { last_rank_emit_ms = r.start_us / 1000 },
      snapshot_worker_frame r h' ∷ [],
      (if h'.is_sentinel then snapshot_node_frame r h' ∷ [] else []),
    )

abbrev pub is_due : ℕ → Hub → Bool
is_due now h = not h.paused && leb h.interval_ms (now -u h.last_rank_emit_ms)

-- With the request that was due before the exchange.
unfoldable pub emit : Reads → Hub → Hub × List Frame × List HostFrame
emit r h =
    let h' = record h { snapshot_due = 0 } in
    if not (h.snapshot_due == 0) || is_due (r.start_us / 1000) h'
    then publish r h.snapshot_due h'
    else (h', [], [])

-- One control to each of the `n` ranks from `id` on, but for the own.
unfoldable pub to_others : ℕ → Control → ℕ → ℕ → List (ℕ × Control)
to_others own m id zero = []
to_others own m id (suc n) =
    let rest = to_others own m (id + 1) n in if id == own then rest else (id, m) ∷ rest

unfoldable pub fan_out : ℕ → ℕ → List Control → List (ℕ × Control)
fan_out own world_size [] = []
fan_out own world_size (m ∷ ms) = to_others own m 0 world_size ++ fan_out own world_size ms

-- tick_if_due up to the fan-out
unfoldable pub pump : Reads → List Control → Hub → Hub × Sent
pump r inbound h =
    let (h', workers, nodes) = emit r (obey_all inbound h) in
    (
      record h' { pending_fanout = [] },
      record {
        workers = workers;
        nodes = nodes;
        controls = fan_out h'.rank h'.world_size h'.pending_fanout;
      },
    )

abbrev pub snapshot_wait_ms : ℕ
snapshot_wait_ms = 1000

abbrev pub lacks : ℕ → Option Frame → Bool
lacks id none = true
lacks id (some f) = ltb f.snapshot_id id

-- The loop over the ranks, `n` of them from `rank` on.
unfoldable pub any_behind : ℕ → Aggregator → ℕ → ℕ → Bool
any_behind id a rank zero = false
any_behind id a rank (suc n) =
    let rest = any_behind id a (rank + 1) n in
    if lacks id (a.latest_worker rank) then true else rest

unfoldable pub snapshot_outstanding : ℕ → Hub → Bool
snapshot_outstanding now h = elim h.aggregator [
  | none ↦ false
  | some a ↦
      if h.snapshot_requested == 0 || leb snapshot_wait_ms (now -u h.snapshot_requested_ms)
      then false
      else any_behind h.snapshot_requested a 0 h.world_size
]

-- Whether tick_if_due goes on to drain_inbound_frames.
unfoldable pub may_drain : Reads → Hub → Bool
may_drain r h = elim h.aggregator [
  | none ↦ false
  | some a ↦ not h.paused || snapshot_outstanding r.outstanding_ms h
]

-- The sinks of drain_inbound_frames.
unfoldable pub keep_workers : ℕ → List (ℕ × Frame) → Aggregator → Aggregator
keep_workers ts [] a = a
keep_workers ts ((src, f) ∷ fs) a = keep_workers ts fs (record a {
  latest_worker = update a.latest_worker src (some f);
  last_seen_ms = update a.last_seen_ms src (some ts);
})

unfoldable pub keep_nodes : List (ℕ × HostFrame) → Aggregator → Aggregator
keep_nodes [] a = a
keep_nodes ((src, f) ∷ fs) a =
    keep_nodes fs (record a { latest_node = update a.latest_node src (some f) })

abbrev pub some_in {ℓ} : {A : Type ℓ} → List A → Bool
some_in [] = false
some_in (x ∷ xs) = true

-- With whether a frame came in.
unfoldable pub drain_inbound_frames :
    ℕ → List (ℕ × Frame) → List (ℕ × HostFrame) → Aggregator → Aggregator × Bool
unfolding keep_workers keep_nodes
drain_inbound_frames ts ws ns a = (keep_nodes ns (keep_workers ts ws a), some_in ws || some_in ns)

-- The rest of tick_if_due: `ws` and `ns` are the frames that the transport hands over if it is polled.
unfoldable pub ingest : Reads → List (ℕ × Frame) → List (ℕ × HostFrame) → Hub → Hub × Bool
unfolding drain_inbound_frames
ingest r ws ns h = elim h.aggregator [
  | none ↦ (h, false)
  | some a ↦
      if may_drain r h
      then (
        record h { aggregator = some (drain_inbound_frames r.drain_ms ws ns a).0 },
        (drain_inbound_frames r.drain_ms ws ns a).1,
      )
      else (h, false)
]

unfoldable pub count_time : Reads → Bool → Hub → Hub
count_time r moved h =
    if moved
    then record h {
      counters = record h.counters {
        telemetry_microseconds_total =
            h.counters.telemetry_microseconds_total +u (r.end_us -u r.start_us);
      };
    }
    else h

unfoldable pub tick_if_due :
    Reads → List Control → List (ℕ × Frame) → List (ℕ × HostFrame) → Hub → Hub × Sent
unfolding count_time
tick_if_due r inbound ws ns h =
    let (h1, sent) = pump r inbound h in
    let (h2, received) = ingest r ws ns h1 in
    (count_time r (some_in sent.workers || received) h2, sent)

-- std::clamp between k_min_interval_ms and k_max_interval_ms
unfoldable pub clamp_interval : ℕ → ℕ
clamp_interval v = if ltb v 50 then 50 else if ltb 600000 v then 600000 else v

abbrev pub snapshot_floor_ms : ℕ
snapshot_floor_ms = 50

abbrev message : ControlKind → ℕ → Control
message k v = record { version = telemetry_schema_version; kind = k; value = v }

abbrev push_fanout : ControlKind → ℕ → Hub → Hub
push_fanout k v h = record h { pending_fanout = h.pending_fanout ++ message k v ∷ [] }

-- The case SNAPSHOT of apply_control_from_client.
unfoldable pub request_snapshot : ℕ → Hub → Hub
request_snapshot now h =
    let id = u32 (h.snapshot_requested + 1) in
    if not (h.snapshot_requested == 0) && ltb (now -u h.snapshot_requested_ms) snapshot_floor_ms
    then h
    else record h {
      snapshot_requested_ms = now;
      snapshot_due = id;
      snapshot_requested = id;
      pending_fanout = h.pending_fanout ++ message snapshot id ∷ [];
    }

unfoldable pub apply_control_from_client : ℕ → ControlKind → ℕ → Hub → Hub
unfolding clamp_interval request_snapshot
apply_control_from_client now kind value h = elim kind [
  | set_interval_ms ↦
      push_fanout set_interval_ms (clamp_interval value)
        (record h { interval_ms = clamp_interval value })
  | pause ↦ push_fanout pause 0 (record h { paused = true })
  | resume ↦ push_fanout resume 0 (record h { paused = false })
  | snapshot ↦ request_snapshot now h
  | unspecified ↦ h
  | be_node_sentinel ↦ h
]
