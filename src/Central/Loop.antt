-- ===== src/Central/Loop.antt =====
-- The center's main loop. `memory` is get_current_rss in megabytes and `now` is MPI_Wtime.
use gempba.Base.{
  ℕ, zero, suc, ◌-◌, ◌<◌, ◌≡◌, ◌≢◌, refl, sym, ◌∙◌, ap, Bool-cases, ◌==◌, if◌then◌else◌, Bool, true,
  false, ◌&&◌, List, [], ◌∷◌, ◌++◌, Option, none, some, inl, inr, get_elem?,
}
use gempba.Base.Int.{pos}
use gempba.Score.Defs.{Score, Floats, Goal}
use gempba.Termination.Detector.{Detector, init}
use gempba.Termination.Handlers.{process_task_received_ack}
use gempba.Central.Tasks.{Bundle}
use gempba.Central.Dispatch.{State, available}
use gempba.Central.Center.{
  Center, Out, process_running, process_available, maybe_broadcast_global_score,
  process_task_for_center, monitor_and_notify_center_status, clear_buffer, send_seed,
}

pub data Message : Type 0 where
  running_state available_state : ℕ → Message
  score_proposal : ℕ → Score → Message
  task_for_center : ℕ → Bundle → Message
  task_received : ℕ → Message
  other : Message

abbrev pub replicate : ℕ → List State
replicate zero = []
replicate (suc n) = available ∷ replicate n

-- `init_member_variables` and `set_goal`
unfoldable pub start : ℕ → Goal → Score → Center
unfolding init
start n g s = record {
  world_size = n;
  process_state = replicate n;
  nodes_running = pos 0;
  nodes_available = pos (n - 1);
  queue = [];
  max_queue_size = 0;
  center_last_full_status = false;
  time_centerfull_sent = 0;
  goal = g;
  global_score = s;
  score_updates_sent = 0;
  fullness_notices_sent = 0;
  termination = init true;
  received_tasks = 0;
  sent_tasks = 0;
  total_requests_number = 0;
  stats = record {
    received_task_count = 0;
    sent_task_count = 0;
    total_requested_tasks = 0;
    coordinator_messages_handled = 0;
  };
}

abbrev pub acknowledged : Center → Option Detector → Option (Center × List Out)
acknowledged c none = none
acknowledged c (some d) = some (record c { termination = d }, [])

-- The switch on the tag; `none` is the exception of process_task_received_ack.
unfoldable pub handle : Floats → ℕ → Message → Center → Option (Center × List Out)
handle fl now (running_state src) c = some (process_running src c)
handle fl now (available_state src) c = some (process_available src c)
handle fl now (score_proposal src s) c = some (maybe_broadcast_global_score fl s c)
handle fl now (task_for_center src b) c = some (process_task_for_center src b now c)
handle fl now (task_received src) c = acknowledged c (process_task_received_ack c.termination)
handle fl now other c = some (c, [])

abbrev pub is_empty : List Bundle → Bool
is_empty [] = true
is_empty (b ∷ bs) = false

-- `m_termination.deficit() == 0 && m_center_bundle_queue.empty()`
unfoldable pub is_over : Center → Bool
is_over c = (c.termination.deficit == 0) && is_empty c.queue

-- clear_buffer and monitor_and_notify_center_status: each round's end, and each idle round of the probe
unfoldable pub tidy : ℕ → ℕ → Center → Center × List Out
tidy memory now c =
    let (d, sent) = clear_buffer c in
    let (e, told) = monitor_and_notify_center_status memory now d in (e, sent ++ told)

pub data Round : Type 0 where
  raised : Round
  finished : Center → List Out → Round
  continues : Center → List Out → Round

-- What follows the handler.
unfoldable pub close : ℕ → ℕ → Option (Center × List Out) → Round
unfolding tidy is_over
close memory now none = raised
close memory now (some (d, outs)) =
    let (e, more) = tidy memory now d in
    if is_over d then finished d outs else continues e (outs ++ more)

unfoldable pub round : Floats → ℕ → ℕ → Message → Center → Round
unfolding close
round fl memory now m c = close memory now (handle fl now m c)

-- A state message comes from a worker that the center does not hold for available: a worker has been
-- handed a task before it reports to run, and reports to run before it reports to be available.
abbrev pub Expected : Center → Message → Type 0
Expected c (running_state src) =
    (0 < src) × (src < c.world_size) × (get_elem? c.process_state src ≢ some available)
Expected c (available_state src) =
    (0 < src) × (src < c.world_size) × (get_elem? c.process_state src ≢ some available)
Expected c _ = Unit

-- The states of the center with all that it has sent since the start, newest last.
pub data Reach (fl : Floats) (n : ℕ) (g : Goal) (s : Score) (seed : Bundle)
    : Center → List Out → Type 0 where
  seeded : Reach fl n g s seed (send_seed seed (start n g s)).0 (send_seed seed (start n g s)).1
  idle :
      {c : Center} {outs : List Out}
      → Reach fl n g s seed c outs
      → (memory now : ℕ) → Reach fl n g s seed (tidy memory now c).0 (outs ++ (tidy memory now c).1)
  receive :
      {c d : Center} {outs more : List Out}
      → Reach fl n g s seed c outs
      → (memory now : ℕ) (m : Message) → Expected c m
      → round fl memory now m c ≡ continues d more
      → Reach fl n g s seed d (outs ++ more)

-- Of a handler's outcome, if it is no exception.
abbrev pub Holds : (Center → List Out → Type 0) → Option (Center × List Out) → Type 0
Holds P none = Unit
Holds P (some (c, outs)) = P c outs

abbrev pub next_center : Center → Round → Center
next_center d raised = d
next_center d (finished c outs) = c
next_center d (continues c outs) = c

abbrev pub next_outs : Round → List Out
next_outs raised = []
next_outs (finished c outs) = outs
next_outs (continues c outs) = outs

close-continues :
    (memory now : ℕ) (o : Option (Center × List Out)) (d : Center) (more : List Out)
    → close memory now o ≡ continues d more
    → (e : Center) × (outs : List Out) × (o ≡ some (e, outs))
      × (d ≡ (tidy memory now e).0)
      × (more ≡ outs ++ (tidy memory now e).1)
unfolding close
close-continues memory now none d more e = cc
close-continues memory now (some (f, outs)) d more e = elim (Bool-cases (is_over f)) [
  | inl over ↦ let g = rw over at e in cc
  | inr more_work ↦
      let g = rw more_work at e in (f, outs, refl, sym (ap (next_center d) g), sym (ap next_outs g))
]

-- A round that goes on: what the handler left, and what it sent, and then the tidying up.
pub round-continues :
    (fl : Floats) (memory now : ℕ) (m : Message) (c d : Center) (more : List Out)
    → round fl memory now m c ≡ continues d more
    → (e : Center) × (outs : List Out) × (handle fl now m c ≡ some (e, outs))
      × (d ≡ (tidy memory now e).0)
      × (more ≡ outs ++ (tidy memory now e).1)
unfolding round
round-continues fl memory now m c d more e = close-continues memory now (handle fl now m c) d more e

close-finished :
    (memory now : ℕ) (o : Option (Center × List Out)) (d : Center) (more : List Out)
    → close memory now o ≡ finished d more
    → (o ≡ some (d, more)) × (is_over d ≡ true)
unfolding close
close-finished memory now none d more e = cc
close-finished memory now (some (f, outs)) d more e = elim (Bool-cases (is_over f)) [
  | inl over ↦
      let g = rw over at e in
      let same : f ≡ d = ap (next_center d) g in
      (λ i. some (same i, ap next_outs g i), ap is_over (sym same) ∙ over)
  | inr more_work ↦ let g = rw more_work at e in cc
]

-- A round that ends the loop: nothing follows the handler, and the center has nothing left.
pub round-finished :
    (fl : Floats) (memory now : ℕ) (m : Message) (c d : Center) (more : List Out)
    → round fl memory now m c ≡ finished d more
    → (handle fl now m c ≡ some (d, more)) × (is_over d ≡ true)
unfolding round
round-finished fl memory now m c d more e = close-finished memory now (handle fl now m c) d more e
