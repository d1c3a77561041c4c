-- ===== src/Central/Statistics.antt =====
-- The counters of the statistics that the center keeps, against the scheduler's own and what it has sent.
use gempba.Base.{
  ℕ, ◌+◌, ◌-◌, ◌≤◌, ◌≡◌, refl, ◌∙◌, ap, subst, Bool-cases, List, [], ◌∷◌, ◌++◌, length,
  length-append, Option, none, some, inl, inr, arith,
}
use gempba.Base.Messages.{collect, collect-append, collect-to_no_ranks}
use gempba.Score.Defs.{Score, Floats, Goal, should_broadcast_global}
use gempba.Termination.Handlers.{process_task_received_ack}
use gempba.Termination.Detector.{on_task_received}
use gempba.Central.Tasks.{Bundle}
use gempba.Central.Dispatch.{dispatch_to_available}
use gempba.Central.Center.{
  Center, Out, score_update, center_is_full, center_is_free, record_score_proposal,
  record_score_broadcast, record_score_improved, record_full, record_free, record_recv, to_workers,
  ack_to, dispatched, handed, hand_out, process_running, process_available,
  maybe_broadcast_global_score, process_task_for_center, monitor_and_notify_center_status,
  clear_buffer, send_seed,
}
use gempba.Central.Loop.{
  Message, running_state, available_state, score_proposal, task_for_center, task_received, other,
  start, handle, tidy, Holds, acknowledged, round-continues, Reach, seeded, idle, receive,
}
use gempba.Central.Invariant.{Counted, Reach-Counted}

abbrev pub proposal : Out → List (Unit {0})
proposal record_score_proposal = tt ∷ []
proposal _ = []

-- How many of these are the records of a proposed score.
abbrev pub proposals : List Out → ℕ
proposals outs = length (collect proposal outs)

proposals-append : (xs ys : List Out) → proposals (xs ++ ys) ≡ proposals xs + proposals ys
proposals-append xs ys =
    ap length (collect-append proposal xs ys)
    ∙ length-append (collect proposal xs) (collect proposal ys)

-- What a call adds to the three counters, for what it sends.
pub record Adds (c d : Center) (outs : List Out) : Type 0 where
  pub requests : ℕ
  pub in_total : d.total_requests_number ≡ c.total_requests_number + requests
  pub stated : d.stats.total_requested_tasks ≡ c.stats.total_requested_tasks + requests
  pub handled :
      d.stats.coordinator_messages_handled
      ≡ (c.stats.coordinator_messages_handled + requests) + proposals outs

Adds-then : (c d e : Center) (xs ys : List Out) → Adds c d xs → Adds d e ys → Adds c e (xs ++ ys)
Adds-then c d e xs ys p q = record {
  requests = p.requests + q.requests;
  in_total = omega (arith, p.in_total, q.in_total);
  stated = omega (arith, p.stated, q.stated);
  handled = omega (arith, p.handled, q.handled, proposals-append xs ys);
}

-- `n` requests, of which none is a proposal.
abbrev Plain : ℕ → Center → Center → List Out → Type 0
Plain n c d outs =
    (d.total_requests_number ≡ c.total_requests_number + n)
    × (d.stats.total_requested_tasks ≡ c.stats.total_requested_tasks + n)
    × (d.stats.coordinator_messages_handled ≡ c.stats.coordinator_messages_handled + n)
    × (proposals outs ≡ 0)

Plain-Adds : (n : ℕ) (c d : Center) (outs : List Out) → Plain n c d outs → Adds c d outs
Plain-Adds n c d outs (a, b, e, none_proposed) = record {
  requests = n;
  in_total = a;
  stated = b;
  handled = omega (arith, e, none_proposed);
}

to_workers-proposals :
    (c : Center) (f : ℕ → Out) (rest : List Out)
    → ((q : ℕ) → proposal (f q) ≡ [])
    → proposals (to_workers c f ++ rest) ≡ proposals rest
to_workers-proposals c f rest h = omega (
  arith,
  proposals-append (to_workers c f) rest,
  ap length (collect-to_no_ranks proposal f h (c.world_size - 1) 1),
)

score-Adds :
    (fl : Floats) (s : Score) (c : Center)
    → let o = maybe_broadcast_global_score fl s c in Adds c o.0 o.1
unfolding maybe_broadcast_global_score
score-Adds fl s c = elim (Bool-cases (should_broadcast_global fl c.goal c.global_score s)) [
  | inl better ↦
      let told =
        to_workers-proposals c (λ r. score_update r s)
          (record_score_broadcast ∷ record_score_improved ∷ []) (λ q. refl) in
      rw better
        (record { requests = 1; in_total = refl; stated = refl; handled = omega (arith, told) })
  | inr worse ↦
      rw worse (record {
        requests = 0;
        in_total = omega arith;
        stated = omega arith;
        handled = omega arith;
      })
]

monitor-Plain :
    (memory now : ℕ) (c : Center)
    → let o = monitor_and_notify_center_status memory now c in Plain 0 c o.0 o.1
unfolding monitor_and_notify_center_status
monitor-Plain memory now c =
    let full = to_workers-proposals c center_is_full (record_full ∷ []) (λ q. refl) in
    let free = to_workers-proposals c center_is_free (record_free ∷ []) (λ q. refl) in
    (ground arith, ground arith, ground arith, ground (arith, full, free))

hand_out-Plain :
    (sent : List (ℕ × Bundle)) (c : Center)
    → Plain (length sent) c (hand_out sent c).0 (hand_out sent c).1
hand_out-Plain [] c = (omega arith, omega arith, omega arith, refl)
hand_out-Plain ((r, b) ∷ sent) c =
    let (n, m, k, none_proposed) = hand_out-Plain sent (handed c) in
    (omega (arith, n), omega (arith, m), omega (arith, k), none_proposed)

clear-Adds : (c : Center) → Adds c (clear_buffer c).0 (clear_buffer c).1
unfolding clear_buffer
clear-Adds c =
    let d = dispatch_to_available c.process_state c.queue in
    Plain-Adds (length d.sent) c _ _ (hand_out-Plain d.sent (dispatched d c))

tidy-Adds : (memory now : ℕ) (c : Center) → Adds c (tidy memory now c).0 (tidy memory now c).1
unfolding tidy
tidy-Adds memory now c =
    Adds-then c (clear_buffer c).0 _ (clear_buffer c).1 _ (clear-Adds c)
      (Plain-Adds 0 (clear_buffer c).0 _ _ (monitor-Plain memory now (clear_buffer c).0))

ack-proposals : (o : Option ℕ) (rest : List Out) → proposals (ack_to o ++ rest) ≡ proposals rest
ack-proposals none rest = refl
ack-proposals (some r) rest = refl

task-Plain :
    (src : ℕ) (b : Bundle) (now : ℕ) (c : Center)
    → let o = process_task_for_center src b now c in Plain 1 c o.0 o.1
unfolding process_task_for_center
task-Plain src b now c = (
  refl,
  refl,
  refl,
  ack-proposals (on_task_received c.termination src).1 (record_recv src b ∷ []),
)

handle-Adds :
    (fl : Floats) (now : ℕ) (m : Message) (c : Center) → Holds (Adds c) (handle fl now m c)
unfolding handle process_running process_available
handle-Adds fl now (running_state src) c = Plain-Adds 1 c _ _ (refl, refl, refl, refl)
handle-Adds fl now (available_state src) c = Plain-Adds 1 c _ _ (refl, refl, refl, refl)
handle-Adds fl now (score_proposal src s) c = score-Adds fl s c
handle-Adds fl now (task_for_center src b) c = Plain-Adds 1 c _ _ (task-Plain src b now c)
handle-Adds fl now (task_received src) c =
    elim (process_task_received_ack c.termination) as (λ o. Holds (Adds c) (acknowledged c o)) [
      | none ↦ tt
      | some t ↦ Plain-Adds 0 c _ _ (omega arith, omega arith, omega arith, refl)
    ]
handle-Adds fl now other c = Plain-Adds 0 c c [] (omega arith, omega arith, omega arith, refl)

-- Since the start, at which all three are 0.
abbrev Logged : Center → List Out → Type 0
Logged c outs =
    (c.stats.total_requested_tasks ≡ c.total_requests_number)
    × (c.stats.coordinator_messages_handled ≡ c.total_requests_number + proposals outs)

Adds-Logged : (c d : Center) (xs ys : List Out) → Adds c d ys → Logged c xs → Logged d (xs ++ ys)
Adds-Logged c d xs ys a (requested, handled) = (
  omega (arith, a.in_total, a.stated, requested),
  omega (arith, a.in_total, a.handled, handled, proposals-append xs ys),
)

Reach-Logged :
    {fl : Floats} {n : ℕ} {g : Goal} {s : Score} {seed : Bundle} {c : Center} {outs : List Out}
    → Reach fl n g s seed c outs
    → Logged c outs
unfolding send_seed start
Reach-Logged seeded = (refl, refl)
Reach-Logged (idle {c} {outs} before memory now) =
    Adds-Logged c _ outs _ (tidy-Adds memory now c) (Reach-Logged before)
Reach-Logged {fl} (receive {c} {d} {outs} {more} before memory now m x e) =
    let (d0, first, handled, final, all) = round-continues fl memory now m c d more e in
    let added : Adds c d0 first = subst (Holds (Adds c)) handled (handle-Adds fl now m c) in
    let both =
      Adds-then c d0 (tidy memory now d0).0 first (tidy memory now d0).1 added
        (tidy-Adds memory now d0) in
    rw (final, all) (Adds-Logged c _ outs _ both (Reach-Logged before))

-- In every state that the center's loop reaches in a world of two ranks or more: m_nodes_available is the number of
-- the workers held for available; the tasks sent and those in the queue are as many as those received and the
-- seed; the tasks in the queue stand in the order of their priority, and the queue is no longer than its
-- recorded maximum. Of the statistics, the counts of the tasks sent, of the tasks received and of the
-- requests are the scheduler's own, and the count of the messages handled is that of the requests and one
-- for each score proposed.
pub Reach-Statistics :
    {fl : Floats} {n : ℕ} {g : Goal} {s : Score} {seed : Bundle} {c : Center} {outs : List Out}
    → Reach fl n g s seed c outs
    → 2 ≤ n
    → Counted c
      × (c.stats.total_requested_tasks ≡ c.total_requests_number)
      × (c.stats.coordinator_messages_handled ≡ c.total_requests_number + proposals outs)
Reach-Statistics before two =
    let logged = Reach-Logged before in (Reach-Counted before two, logged.0, logged.1)
