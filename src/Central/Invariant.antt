-- ===== src/Central/Invariant.antt =====
-- The counters of the center agree with its states and its queue.
use gempba.Base.{
  ℕ, zero, suc, ◌+◌, ◌-◌, ◌≤◌, ◌≡◌, refl, sym, ◌∙◌, ap, subst, List, [], ◌∷◌, none, some, length,
  arith,
}
use gempba.Base.Int.{pos, incr, decr}
use gempba.Score.Defs.{Score, Floats, Goal}
use gempba.Termination.Handlers.{process_task_received_ack}
use gempba.Central.Tasks.{Bundle, Ordered, push, push-Ordered, drop-Ordered}
use gempba.Central.Dispatch.{State, available, dispatch_to_available, dispatch_to_available_lem}
use gempba.Central.Center.{
  Center, Out, minus, dispatched, handed, hand_out, process_running, process_available,
  maybe_broadcast_global_score, process_task_for_center, monitor_and_notify_center_status,
  clear_buffer, send_seed,
}
use gempba.Central.Loop.{
  replicate, Message, running_state, available_state, score_proposal, task_for_center,
  task_received, other, start, handle, tidy, Expected, Holds, acknowledged, round-continues, Reach,
  seeded, idle, receive,
}
use gempba.Central.Counts.{
  count, idle_workers, idle_workers-running, idle_workers-available, idle_workers-dispatch,
  minus_lem, length-set,
}

pub record Counted (c : Center) : Type 0 where
  -- m_nodes_available is the number of the workers that are available
  pub available_count : c.nodes_available ≡ pos (idle_workers c.process_state)
  pub states : length c.process_state ≡ c.world_size
  -- the tasks sent and those in the queue are as many as those received, and one more, the seed
  pub tasks : length c.queue + c.sent_tasks ≡ c.received_tasks + 1
  -- the tasks with the most bits set go out first
  pub order : Ordered c.queue
  pub room : length c.queue ≤ c.max_queue_size
  pub handled : c.stats.sent_task_count ≡ c.sent_tasks
  pub taken : c.stats.received_task_count ≡ c.received_tasks

length-push : (b : Bundle) (q : List Bundle) → length (push b q) ≡ length q + 1
unfolding push
length-push b [] = refl
length-push b (c ∷ cs) = ground (arith, length-push b cs)

dispatch-Ordered :
    (ss : List State) (q : List Bundle) → Ordered q → Ordered (dispatch_to_available ss q).queue
unfolding dispatch_to_available
dispatch-Ordered [] q o = o
dispatch-Ordered (center ∷ ss) q o =
    let (sent, queue, states, end) = dispatch_to_available_lem center ss q in
    subst Ordered (sym queue) (drop-Ordered _ q o)

running-Counted :
    (src : ℕ) (c : Center)
    → Counted c
    → Expected c (running_state src)
    → Counted (process_running src c).0
unfolding process_running
running-Counted src c v (low, high, busy) = record {
  available_count =
      v.available_count ∙ ap pos (sym (idle_workers-running c.process_state src low busy));
  states = length-set c.process_state src State.running ∙ v.states;
  tasks = v.tasks;
  order = v.order;
  room = v.room;
  handled = v.handled;
  taken = v.taken;
}

available-Counted :
    (src : ℕ) (c : Center)
    → Counted c
    → Expected c (available_state src)
    → Counted (process_available src c).0
unfolding process_available
available-Counted src c v (low, high, busy) = record {
  available_count =
      ap incr v.available_count
      ∙ ap pos (
          omega
            (arith, idle_workers-available c.process_state src low (omega (arith, v.states)) busy));
  states = length-set c.process_state src available ∙ v.states;
  tasks = v.tasks;
  order = v.order;
  room = v.room;
  handled = v.handled;
  taken = v.taken;
}

-- Nothing that the invariant is about is changed.
pub record Unchanged (d c : Center) : Type 0 where
  pub available : d.nodes_available ≡ c.nodes_available
  pub states : d.process_state ≡ c.process_state
  pub world : d.world_size ≡ c.world_size
  pub queue : d.queue ≡ c.queue
  pub sent : d.sent_tasks ≡ c.sent_tasks
  pub received : d.received_tasks ≡ c.received_tasks
  pub largest : d.max_queue_size ≡ c.max_queue_size
  pub stats_sent : d.stats.sent_task_count ≡ c.stats.sent_task_count
  pub stats_received : d.stats.received_task_count ≡ c.stats.received_task_count

Counted-frame : (d c : Center) → Unchanged d c → Counted c → Counted d
Counted-frame d c same v = record {
  available_count =
      same.available ∙ v.available_count ∙ ap (λ l. pos (idle_workers l)) (sym same.states);
  states = ap length same.states ∙ v.states ∙ sym same.world;
  tasks = omega (arith, ap length same.queue, same.sent, same.received, v.tasks);
  order = subst Ordered (sym same.queue) v.order;
  room = omega (arith, ap length same.queue, same.largest, v.room);
  handled = same.stats_sent ∙ v.handled ∙ sym same.sent;
  taken = same.stats_received ∙ v.taken ∙ sym same.received;
}

pub score-Unchanged :
    (fl : Floats) (s : Score) (c : Center) → Unchanged (maybe_broadcast_global_score fl s c).0 c
unfolding maybe_broadcast_global_score
score-Unchanged fl s c = record {
  available = ground arith;
  states = ground arith;
  world = ground arith;
  queue = ground arith;
  sent = ground arith;
  received = ground arith;
  largest = ground arith;
  stats_sent = ground arith;
  stats_received = ground arith;
}

pub monitor-Unchanged :
    (memory now : ℕ) (c : Center) → Unchanged (monitor_and_notify_center_status memory now c).0 c
unfolding monitor_and_notify_center_status
monitor-Unchanged memory now c = record {
  available = ground arith;
  states = ground arith;
  world = ground arith;
  queue = ground arith;
  sent = ground arith;
  received = ground arith;
  largest = ground arith;
  stats_sent = ground arith;
  stats_received = ground arith;
}

task-Counted :
    (src : ℕ) (b : Bundle) (now : ℕ) (c : Center)
    → Counted c
    → Counted (process_task_for_center src b now c).0
unfolding process_task_for_center
task-Counted src b now c v = record {
  available_count = v.available_count;
  states = v.states;
  tasks = omega (arith, length-push b c.queue, v.tasks);
  order = push-Ordered b c.queue v.order;
  room = ground (arith, length-push b c.queue, v.room);
  handled = v.handled;
  taken = ap (λ n. n + 1) v.taken;
}

-- What handing out the tasks of a list changes, and what it leaves.
pub hand_out_lem :
    (sent : List (ℕ × Bundle)) (c : Center)
    → let d = (hand_out sent c).0 in
      (d.sent_tasks ≡ c.sent_tasks + length sent)
      × (d.stats.sent_task_count ≡ c.stats.sent_task_count + length sent)
      × (d.nodes_available ≡ c.nodes_available)
      × (d.process_state ≡ c.process_state)
      × (d.world_size ≡ c.world_size)
      × (d.queue ≡ c.queue)
      × (d.received_tasks ≡ c.received_tasks)
      × (d.max_queue_size ≡ c.max_queue_size)
      × (d.stats.received_task_count ≡ c.stats.received_task_count)
hand_out_lem [] c = (omega arith, omega arith, refl, refl, refl, refl, refl, refl, refl)
hand_out_lem ((r, b) ∷ sent) c =
    let (n, m, still, states, world, queue, received, largest, stats) =
      hand_out_lem sent (handed c) in
    (omega (arith, n), omega (arith, m), still, states, world, queue, received, largest, stats)

clear-Counted : (c : Center) → Counted c → Counted (clear_buffer c).0
unfolding clear_buffer
clear-Counted c v =
    let d = dispatch_to_available c.process_state c.queue in
    let (idle_now, size, tasks, few) = idle_workers-dispatch c.process_state c.queue in
    let (n, m, still, states, world, queue, received, largest, stats) =
      hand_out_lem d.sent (dispatched d c) in
    record {
      available_count =
          still
          ∙ ap (minus (length d.sent)) (v.available_count ∙ ap pos (sym idle_now))
          ∙ minus_lem (length d.sent) (idle_workers d.states)
          ∙ ap (λ l. pos (idle_workers l)) (sym states);
      states = ap length states ∙ size ∙ v.states ∙ sym world;
      tasks = omega (arith, ap length queue, n, received, tasks, v.tasks);
      order = subst Ordered (sym queue) (dispatch-Ordered c.process_state c.queue v.order);
      room = omega (arith, ap length queue, largest, tasks, v.room);
      handled = omega (arith, m, n, v.handled);
      taken = stats ∙ v.taken ∙ sym received;
    }

pub tidy-Counted : (memory now : ℕ) (c : Center) → Counted c → Counted (tidy memory now c).0
unfolding tidy
tidy-Counted memory now c v =
    Counted-frame (monitor_and_notify_center_status memory now (clear_buffer c).0).0
      (clear_buffer c).0 (monitor-Unchanged memory now (clear_buffer c).0) (clear-Counted c v)

pub handle-Counted :
    (fl : Floats) (now : ℕ) (m : Message) (c : Center)
    → Counted c
    → Expected c m
    → Holds (λ d outs. Counted d) (handle fl now m c)
unfolding handle
handle-Counted fl now (running_state src) c v x = running-Counted src c v x
handle-Counted fl now (available_state src) c v x = available-Counted src c v x
handle-Counted fl now (score_proposal src s) c v x =
    Counted-frame (maybe_broadcast_global_score fl s c).0 c (score-Unchanged fl s c) v
handle-Counted fl now (task_for_center src b) c v x = task-Counted src b now c v
handle-Counted fl now (task_received src) c v x =
    elim (process_task_received_ack c.termination)
      as (λ o. Holds (λ d outs. Counted d) (acknowledged c o)) [
        | none ↦ tt
        | some t ↦ record {
          available_count = v.available_count;
          states = v.states;
          tasks = v.tasks;
          order = v.order;
          room = v.room;
          handled = v.handled;
          taken = v.taken;
        }
      ]
handle-Counted fl now other c v x = v

count-replicate : (k : ℕ) → count (replicate k) ≡ k
count-replicate zero = refl
count-replicate (suc k) = omega (arith, count-replicate k)

length-replicate : (k : ℕ) → length (replicate k) ≡ k
length-replicate zero = refl
length-replicate (suc k) = ap suc (length-replicate k)

start-Counted :
    (n : ℕ) (g : Goal) (s : Score) (seed : Bundle)
    → 2 ≤ n
    → Counted (send_seed seed (start n g s)).0
unfolding send_seed start
start-Counted zero g s seed two = ground arith
start-Counted (suc zero) g s seed two = ground arith
start-Counted (suc (suc k)) g s seed two = record {
  available_count =
      (let e : suc (suc k) - 1 ≡ suc k = omega arith in ap (λ m. decr (pos m)) e)
      ∙ ap pos (omega (arith, count-replicate k));
  states = ap (λ m. suc (suc m)) (length-replicate k);
  tasks = omega arith;
  order = tt;
  room = omega arith;
  handled = omega arith;
  taken = omega arith;
}

-- In every state that the center's loop reaches in a world of two ranks or more: m_nodes_available is the
-- number of the workers held for available, the tasks sent and those in the queue are as many as those
-- received and the seed, the tasks in the queue stand in the order of their priority, and two counters of
-- the statistics are those of the scheduler.
pub Reach-Counted :
    {fl : Floats} {n : ℕ} {g : Goal} {s : Score} {seed : Bundle} {c : Center} {outs : List Out}
    → Reach fl n g s seed c outs
    → 2 ≤ n
    → Counted c
Reach-Counted {n} {g} {s} {seed} seeded two = start-Counted n g s seed two
Reach-Counted (idle {c} before memory now) two =
    tidy-Counted memory now c (Reach-Counted before two)
Reach-Counted {fl} (receive {c} {d} {more} before memory now m x e) two =
    let (d0, first, handled, final, all) = round-continues fl memory now m c d more e in
    subst Counted (sym final) (
      tidy-Counted memory now d0 (
        subst (Holds (λ k outs. Counted k)) handled
          (handle-Counted fl now m c (Reach-Counted before two) x)))
