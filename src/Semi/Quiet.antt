-- ===== src/Semi/Quiet.antt =====
-- At most one task is on its way, however the threads of a worker interleave.
use gempba.Base.{
  ℕ, ◌+◌, ◌<◌, ◌==◌, ltb, Bool, true, false, Bool-cases, ◌&&◌, not, List, [], ◌∷◌, length, ◌≡◌,
  refl, sym, ◌∙◌, ap, subst, Option, none, some, ◌⊎◌, inl, inr, All, arith,
}
use gempba.Termination.Detector.{Detector, on_task_sent}
use gempba.Termination.Handlers.{Msg, send_task, send_to}
use gempba.Ranks.Shift.{shift_cells, shift_left}
use gempba.Central.Tasks.{Bundle}
use gempba.Semi.Channel.{
  Worker, is_rank, is_empty, can_open, force_push, int_max, send_popped, overwrite, receive_next,
  update_next, Holder, free, opened, pushed, Shared, IsNext, Step, open_channel, push, leave, pop,
  send, receive, update, Reach, start, step,
}
use gempba.Semi.Cells.{
  IsCell, shift_cells-All, length-shift_cells, overwrite-All, length-overwrite, head-IsCell,
}

-- Nothing is on its way, or one task is: in the queue or in the funneling thread's hand.
abbrev pub Idle : Worker → Option Bundle → Type 0
Idle w hand = (w.transmitting ≡ false) × (w.tasks_bundle_queue ≡ []) × (hand ≡ none)

abbrev pub Carrying : Worker → Option Bundle → Type 0
Carrying w hand =
    (r : ℕ) × (b : Bundle) × (w.transmitting ≡ true)
    × (w.destination_rank ≡ some r)
    × IsNext w.rank r
    × (((w.tasks_bundle_queue ≡ b ∷ []) × (hand ≡ none))
        ⊎ ((w.tasks_bundle_queue ≡ []) × (hand ≡ some b)))

abbrev pub MayPush : Holder → Worker → Type 0
MayPush opened w = can_open w ≡ true
MayPush _ w = Unit

-- `me` is the worker's rank.
pub record Quiet (me : ℕ) (s : Shared) : Type 0 where
  pub ranked : s.worker.rank ≡ me
  pub cells : All (IsCell s.worker.rank) s.worker.next_processes
  pub room : 0 < length s.worker.next_processes
  pub next : IsCell s.worker.rank s.worker.next_process
  pub load : Idle s.worker s.hand ⊎ Carrying s.worker s.hand
  pub guard : MayPush s.holder s.worker

pub rank_of : (o : Option ℕ) → is_rank o ≡ true → (r : ℕ) × (o ≡ some r)
rank_of none e = cc
rank_of (some r) e = (r, refl)

shifted_some :
    (cells : List (Option ℕ)) → 0 < length cells → shift_left cells ≡ some (shift_cells cells)
unfolding shift_left
shifted_some [] h = ground arith
shifted_some (c ∷ cells) h = refl

both_true : (a b : Bool) → (not a && b) ≡ true → (a ≡ false) × (b ≡ true)
both_true true b e = cc
both_true false b e = (refl, e)

pub opened_now :
    (w : Worker) → can_open w ≡ true → (w.transmitting ≡ false) × (is_rank w.next_process ≡ true)
unfolding can_open
opened_now w e = both_true w.transmitting (is_rank w.next_process) e

pub Idle-queue :
    (w : Worker) (hand : Option Bundle)
    → w.transmitting ≡ false
    → Idle w hand ⊎ Carrying w hand
    → Idle w hand
Idle-queue w hand e (inl idle) = idle
Idle-queue w hand e (inr (r, b, busy, to, next, rest)) = cc

-- The worker after a push.
abbrev pub pushed_worker : Bundle → Worker → Worker
pushed_worker b w = record w {
  transmitting = true;
  destination_rank = w.next_process;
  next_processes = shift_cells w.next_processes;
  tasks_bundle_queue = b ∷ [];
}

pub push_lem :
    (b : Bundle) (w : Worker)
    → is_empty b.bytes ≡ false
    → 0 < length w.next_processes
    → w.tasks_bundle_queue ≡ []
    → force_push b w ≡ some (pushed_worker b w)
unfolding force_push
push_lem b w full room none_queued = rw (full, shifted_some w.next_processes room, none_queued) refl

push_full : (b : Bundle) (w v : Worker) → force_push b w ≡ some v → is_empty b.bytes ≡ false
unfolding force_push
push_full b w v e = elim (Bool-cases (is_empty b.bytes)) [
  | inl none_there ↦ let f = rw none_there at e in cc
  | inr full ↦ full
]

-- The worker after its task has been sent.
abbrev pub sent_worker : Worker → Worker
sent_worker w = record w {
  transmitting = false;
  destination_rank = none;
  termination = on_task_sent w.termination;
  sent_tasks = w.sent_tasks + 1;
  total_requests_number = w.total_requests_number + 1;
}

task_lem :
    (me r : ℕ) (d : Detector)
    → IsNext me r
    → (msgs : List Msg) × (send_task me (some r) d ≡ some (on_task_sent d, msgs))
unfolding send_task send_to
task_lem me r d (low, other) =
    let positive : ltb 0 r ≡ true = ground arith in
    let differs : (r == me) ≡ false = ground arith in
    ((send_to me r d).1, rw (positive, differs) refl)

pub in_hand :
    (w : Worker) (b : Bundle)
    → Idle w (some b) ⊎ Carrying w (some b)
    → (r : ℕ) × (w.destination_rank ≡ some r) × IsNext w.rank r × (w.tasks_bundle_queue ≡ [])
in_hand w b (inl (quiet, none_queued, nothing)) = cc
in_hand w b (inr (r, c, busy, to, next, inl (queued, nothing))) = cc
in_hand w b (inr (r, c, busy, to, next, inr (none_queued, same))) = (r, to, next, none_queued)

pub send_lem :
    (b : Bundle) (w : Worker)
    → ltb int_max (length b.bytes) ≡ false
    → Idle w (some b) ⊎ Carrying w (some b)
    → (msgs : List Msg) × (send_popped b w ≡ some (sent_worker w, msgs))
unfolding send_popped
send_lem b w fits load =
    let (r, to, next, none_queued) = in_hand w b load in
    let (msgs, e) = task_lem w.rank r w.termination next in
    (msgs, rw (fits, to, e, none_queued) refl)

send_fits :
    (b : Bundle) (w v : Worker) (msgs : List Msg)
    → send_popped b w ≡ some (v, msgs)
    → ltb int_max (length b.bytes) ≡ false
unfolding send_popped
send_fits b w v msgs e = elim (Bool-cases (ltb int_max (length b.bytes))) [
  | inl long ↦ let f = rw long at e in cc
  | inr fits ↦ fits
]

abbrev some_or {ℓ} : {A : Type ℓ} → A → Option A → A
some_or a none = a
some_or a (some x) = x

same_value : {A : Type 0} (a b : A) (o : Option A) → o ≡ some a → o ≡ some b → a ≡ b
same_value a b o e f = ap (some_or a) (sym e ∙ f)

push-Quiet :
    (me : ℕ) (w : Worker) (hand : Option Bundle) (b : Bundle)
    → Quiet me (record { worker = w; hand = hand; holder = opened })
    → Quiet me (record { worker = pushed_worker b w; hand = hand; holder = pushed })
push-Quiet me w hand b q =
    let (quiet, ranked) = opened_now w q.guard in
    let (r, to) = rank_of w.next_process ranked in
    let (still, none_queued, nothing) = Idle-queue w hand quiet q.load in
    record {
      ranked = q.ranked;
      cells = shift_cells-All (IsCell w.rank) w.next_processes tt q.cells;
      room = omega (arith, length-shift_cells w.next_processes, q.room);
      next = q.next;
      load = inr (r, b, refl, to, subst (IsCell w.rank) to q.next, inl (refl, nothing));
      guard = tt;
    }

receive-MayPush :
    (w : Worker) (ks : List ℕ) (h : Holder) → MayPush h w → MayPush h (receive_next ks w)
unfolding can_open receive_next
receive-MayPush w ks free g = tt
receive-MayPush w ks opened g = g
receive-MayPush w ks pushed g = tt

-- New cells.
receive-Quiet :
    (me : ℕ) (w : Worker) (hand : Option Bundle) (h : Holder) (ks : List ℕ)
    → All (IsNext me) ks
    → Quiet me (record { worker = w; hand = hand; holder = h })
    → Quiet me (record { worker = receive_next ks w; hand = hand; holder = h })
unfolding receive_next
receive-Quiet me w hand h ks a q = record {
  ranked = q.ranked;
  cells =
      overwrite-All w.rank ks w.next_processes (subst (λ n. All (IsNext n) ks) (sym q.ranked) a)
        q.cells;
  room = omega (arith, length-overwrite ks w.next_processes, q.room);
  next = q.next;
  load = q.load;
  guard = receive-MayPush w ks h q.guard;
}

update-Quiet :
    (me : ℕ) (w : Worker) (ks : List ℕ)
    → All (IsNext me) ks
    → Quiet me (record { worker = w; hand = none; holder = free })
    → Quiet me (record { worker = update_next ks w; hand = none; holder = free })
unfolding update_next receive_next
update-Quiet me w ks a q =
    let r = receive-Quiet me w none free ks a q in
    record {
      ranked = q.ranked;
      cells = r.cells;
      room = r.room;
      next = head-IsCell w.rank (overwrite ks w.next_processes) r.cells;
      load = q.load;
      guard = tt;
    }

popped :
    (w : Worker) (b : Bundle) (bs : List Bundle)
    → w.tasks_bundle_queue ≡ b ∷ bs
    → Idle w none ⊎ Carrying w none
    → Carrying (record w { tasks_bundle_queue = bs }) (some b)
popped w b bs e (inl (quiet, none_queued, nothing)) = cc
popped w b bs e (inr (r, c, busy, to, next, inl (queued, nothing))) =
    (r, b, busy, to, next, inr (cc, refl))
popped w b bs e (inr (r, c, busy, to, next, inr (none_queued, same))) = cc

pop-MayPush :
    (w : Worker) (bs : List Bundle) (h : Holder)
    → MayPush h w
    → MayPush h (record w { tasks_bundle_queue = bs })
unfolding can_open
pop-MayPush w bs free g = tt
pop-MayPush w bs opened g = g
pop-MayPush w bs pushed g = tt

none-All : (me : ℕ) (cells : List (Option ℕ)) → All (λ c. c ≡ none) cells → All (IsCell me) cells
none-All me [] a = tt
none-All me (c ∷ cells) (e, a) = (subst (IsCell me) (sym e) tt, none-All me cells a)

module _ {Announced : List ℕ → Type 0} (me : ℕ)
    (others : (ks : List ℕ) → Announced ks → All (IsNext me) ks) where
  step-Quiet : {s t : Shared} → Step Announced s t → Quiet me s → Quiet me t
  step-Quiet (open_channel w hand e) q = record {
    ranked = q.ranked;
    cells = q.cells;
    room = q.room;
    next = q.next;
    load = q.load;
    guard = e;
  }
  step-Quiet (push w v hand b e) q =
      let none_queued = (Idle-queue w hand (opened_now w q.guard).0 q.load).1 in
      let same =
        same_value (pushed_worker b w) v (force_push b w)
          (push_lem b w (push_full b w v e) q.room none_queued) e in
      subst (λ x. Quiet me (record { worker = x; hand = hand; holder = pushed })) same
        (push-Quiet me w hand b q)
  step-Quiet (leave w hand h) q = record {
    ranked = q.ranked;
    cells = q.cells;
    room = q.room;
    next = q.next;
    load = q.load;
    guard = tt;
  }
  step-Quiet (pop w b bs h e) q = record {
    ranked = q.ranked;
    cells = q.cells;
    room = q.room;
    next = q.next;
    load = inr (popped w b bs e q.load);
    guard = pop-MayPush w bs h q.guard;
  }
  step-Quiet (send w v b msgs e) q =
      let (sent, e') = send_lem b w (send_fits b w v msgs e) q.load in
      let same =
        ap (λ x. x.0) (same_value (sent_worker w, sent) (v, msgs) (send_popped b w) e' e) in
      subst (λ x. Quiet me (record { worker = x; hand = none; holder = free })) same
        (record {
          ranked = q.ranked;
          cells = q.cells;
          room = q.room;
          next = q.next;
          load = inl (refl, (in_hand w b q.load).3, refl);
          guard = tt;
        })
  step-Quiet (receive w hand h ks a) q = receive-Quiet me w hand h ks (others ks a) q
  step-Quiet (update w ks (inl nothing)) q =
      update-Quiet me w ks (subst (All (IsNext me)) (sym nothing) tt) q
  step-Quiet (update w ks (inr a)) q = update-Quiet me w ks (others ks a) q

  pub Reach-Quiet : {s : Shared} → Reach Announced me s → Quiet me s
  Reach-Quiet (start w cells same quiet none_queued no_next all none_left) = record {
    ranked = same;
    cells = subst (All (IsCell w.rank)) (sym all) (tt, none-All w.rank cells none_left);
    room = subst (λ l. 0 < length l) (sym all) (omega arith);
    next = subst (IsCell w.rank) (sym no_next) tt;
    load = inl (quiet, none_queued, refl);
    guard = tt;
  }
  Reach-Quiet (step before s) = step-Quiet s (Reach-Quiet before)
