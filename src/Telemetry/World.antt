-- ===== src/Telemetry/World.antt =====
-- The hubs of all ranks. Controls and frames go from rank to rank in the order in which they are sent, as
-- MPI promises between two ranks for messages of one tag; what a call of tick_if_due finds arrived is any
-- first part of them.
use gempba.Base.{
  ℕ, ◌+◌, ◌<◌, ◌≡◌, refl, ◌==◌, if◌then◌else◌, Bool, false, ◌||◌, List, [], ◌∷◌, ◌++◌, update,
}
use gempba.Base.Messages.{collect}
use gempba.Telemetry.Counters.{Call, record_call}
use gempba.Telemetry.Hub.{
  Frame, HostFrame, ControlKind, Control, Hub, Reads, on_runtime_ready, obey_all,
}
use gempba.Telemetry.Tick.{
  emit, fan_out, some_in, pump, may_drain, ingest, count_time, tick_if_due,
  apply_control_from_client,
}

pub record World : Type 0 where
  pub hub : ℕ → Hub
  -- the controls on their way to each rank, all from rank 0
  pub controls : ℕ → List Control
  -- the frames on their way from each rank, all to rank 0
  pub frames : ℕ → List Frame

unfoldable pub start : ℕ → (ℕ → Bool) → World
unfolding on_runtime_ready
start n sentinels = record {
  hub = λ i. on_runtime_ready i n (sentinels i);
  controls = λ _. [];
  frames = λ _. [];
}

abbrev pub for_rank : ℕ → ℕ × Control → List Control
for_rank i (dst, m) = if dst == i then m ∷ [] else []

-- The frames that a poll takes, from the rank that each comes from: what is left is `after`.
pub data Polled : (ℕ → List Frame) → List (ℕ × Frame) → (ℕ → List Frame) → Type 0 where
  none_left : {before : ℕ → List Frame} → Polled before [] before
  take_one :
      {before after : ℕ → List Frame} {fs : List (ℕ × Frame)} (src : ℕ) (f : Frame)
      (rest : List Frame)
      → before src ≡ f ∷ rest
      → Polled (update before src rest) fs after
      → Polled before ((src, f) ∷ fs) after

abbrev pub call_counters : Call → Hub → Hub
call_counters e h = record h { counters = record_call e h.counters }

-- A part of tick_if_due at rank `i`, which leaves its hub as `h`: of the controls on their way to the rank it
-- leaves `later`, it sends the controls `sent`, and then `frames` are on their way.
abbrev pub moved : World → ℕ → Hub → List Control → List (ℕ × Control) → (ℕ → List Frame) → World
moved w i h later sent frames = record {
  hub = update w.hub i h;
  controls = λ j. update w.controls i later j ++ collect (for_rank j) sent;
  frames = frames;
}

-- The four parts of tick_if_due, each of which uses the transport once or not at all: between two of them other
-- ranks may do something, and at rank 0 the thread that serves the clients.
pub data Step (n : ℕ) (w : World) : World → Type 0 where
  -- a rank calls a recording function
  recorded :
      (i : ℕ) (e : Call)
      → i < n
      → Step n w (record w { hub = update w.hub i (call_counters e (w.hub i)) })
  -- a client of rank 0 asks for something; fewer than 2^32 - 1 snapshots have been asked for
  client :
      (now : ℕ) (kind : ControlKind) (value : ℕ)
      → (w.hub 0).snapshot_requested + 1 < 4294967296
      → Step n w
          (record w { hub = update w.hub 0 (apply_control_from_client now kind value (w.hub 0)) })
  -- a rank obeys the controls that have arrived
  controls_in :
      (i : ℕ) (inbound later : List Control)
      → i < n
      → w.controls i ≡ inbound ++ later
      → Step n w (moved w i (obey_all inbound (w.hub i)) later [] w.frames)
  -- a rank publishes, if that is due
  frames_out :
      (i : ℕ) (r : Reads)
      → i < n
      → Step n w (
          moved w i
            (emit r (w.hub i)).0
            (w.controls i)
            []
            (update w.frames i (w.frames i ++ (emit r (w.hub i)).1)))
  -- a rank tells the others what is pending
  controls_out :
      (i : ℕ)
      → i < n
      → Step n w (
          moved w i
            (record (w.hub i) { pending_fanout = [] })
            (w.controls i)
            (fan_out (w.hub i).rank (w.hub i).world_size (w.hub i).pending_fanout)
            w.frames)
  -- a rank takes the frames that have arrived, if it polls at all, and counts the time
  frames_in :
      (i : ℕ) (r : Reads) (ws : List (ℕ × Frame)) (ns : List (ℕ × HostFrame)) (any : Bool)
      (after : ℕ → List Frame)
      → i < n
      → Polled w.frames ws after
      → (may_drain r (w.hub i) ≡ false → ws ≡ [])
      → Step n w (moved w i (count_time r any (ingest r ws ns (w.hub i)).0) (w.controls i) [] after)

-- A call of tick_if_due is these parts in this order.
parts-tick_if_due :
    (r : Reads) (inbound : List Control) (ws : List (ℕ × Frame)) (ns : List (ℕ × HostFrame))
    (h : Hub)
    → let h1 = obey_all inbound h in
      let h2 = (emit r h1).0 in
      let h3 = record h2 { pending_fanout = [] } in
      tick_if_due r inbound ws ns h ≡ (
        count_time r (some_in (emit r h1).1 || (ingest r ws ns h3).1) (ingest r ws ns h3).0,
        record {
          workers = (emit r h1).1;
          nodes = (emit r h1).2;
          controls = fan_out h2.rank h2.world_size h2.pending_fanout;
        },
      )
unfolding tick_if_due pump
parts-tick_if_due r inbound ws ns h = refl

pub data Reach (n : ℕ) (w : World) : World → Type 0 where
  here : Reach n w w
  next : {u v : World} → Reach n w u → Step n u v → Reach n w v
