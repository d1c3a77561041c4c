-- ===== src/Central/Told.antt =====
-- Every worker has been told what the center holds.
use gempba.Base.{
  last, last-append, ℕ, ◌+◌, ◌-◌, ◌<◌, ◌≤◌, ◌≡◌, refl, sym, ◌∙◌, ap, true, false, List, [], ◌∷◌,
  ◌++◌, length, length-append, arith,
}
use gempba.Score.Defs.{Score, Floats}
use gempba.Central.Tasks.{Bundle}
use gempba.Central.Dispatch.{dispatch_to_available}
use gempba.Central.Center.{
  Center, Out, handed, hand_out, dispatched, maybe_broadcast_global_score,
  monitor_and_notify_center_status, clear_buffer,
}
use gempba.Central.Invariant.{hand_out_lem}
use gempba.Central.Counts.{idle_workers-dispatch}
use gempba.Central.Notices.{
  scores_to, fullness_to, scores_to-append, fullness_to-append, hand_out-scores, hand_out-fullness,
  broadcast_tells, monitor_tells,
}

-- `s` is the first score. The messages to the worker `r` are as many as the center counts, and the last
-- score is the center's.
pub record Told (s : Score) (r : ℕ) (c : Center) (outs : List Out) : Type 0 where
  pub score_count : length (scores_to r outs) ≡ c.score_updates_sent
  pub score_last : last s (scores_to r outs) ≡ c.global_score
  pub fullness_count : length (fullness_to r outs) ≡ c.fullness_notices_sent

-- The last notice is the center's status,
abbrev pub Agrees : ℕ → Center → List Out → Type 0
Agrees r c outs = last false (fullness_to r outs) ≡ c.center_last_full_status

-- or it said that the center is full, and the center is to say so again, with `n` tasks and more.
abbrev pub Repeats : ℕ → ℕ → Center → List Out → Type 0
Repeats n r c outs =
    (last false (fullness_to r outs) ≡ true)
    × (c.center_last_full_status ≡ false)
    × (n < length c.queue)

-- A call tells the worker `r` what it writes down.
pub record Tells (r : ℕ) (c d : Center) (outs : List Out) : Type 0 where
  pub scores : d.score_updates_sent ≡ c.score_updates_sent + length (scores_to r outs)
  pub global : d.global_score ≡ last c.global_score (scores_to r outs)
  pub notices : d.fullness_notices_sent ≡ c.fullness_notices_sent + length (fullness_to r outs)

pub Told-append :
    (s : Score) (r : ℕ) (c d : Center) (outs more : List Out)
    → Told s r c outs
    → Tells r c d more
    → Told s r d (outs ++ more)
Told-append s r c d outs more t q = record {
  score_count =
      ap length (scores_to-append r outs more)
      ∙ omega (arith, length-append (scores_to r outs) (scores_to r more), t.score_count, q.scores);
  score_last =
      ap (last s) (scores_to-append r outs more)
      ∙ last-append s (scores_to r outs) (scores_to r more)
      ∙ ap (λ a. last a (scores_to r more)) t.score_last
      ∙ sym q.global;
  fullness_count =
      ap length (fullness_to-append r outs more)
      ∙ omega (
        arith,
        length-append (fullness_to r outs) (fullness_to r more),
        t.fullness_count,
        q.notices,
      );
}

pub last-fullness :
    (r : ℕ) (outs more : List Out)
    → last false (fullness_to r (outs ++ more))
      ≡ last (last false (fullness_to r outs)) (fullness_to r more)
last-fullness r outs more =
    ap (last false) (fullness_to-append r outs more)
    ∙ last-append false (fullness_to r outs) (fullness_to r more)

-- A call that sends nothing of the kind.
pub silent :
    (r : ℕ) (c d : Center) (outs : List Out)
    → scores_to r outs ≡ []
    → fullness_to r outs ≡ []
    → d.score_updates_sent ≡ c.score_updates_sent
    → d.global_score ≡ c.global_score
    → d.fullness_notices_sent ≡ c.fullness_notices_sent
    → Tells r c d outs
silent r c d outs e f g h k = record {
  scores = omega (arith, ap length e, g);
  global = h ∙ ap (last c.global_score) (sym e);
  notices = omega (arith, ap length f, k);
}

hand_out_queue : (sent : List (ℕ × Bundle)) (c : Center) → (hand_out sent c).0.queue ≡ c.queue
hand_out_queue sent c = (hand_out_lem sent c).5

hand_out_keeps :
    (sent : List (ℕ × Bundle)) (c : Center)
    → let d = (hand_out sent c).0 in
      (d.score_updates_sent ≡ c.score_updates_sent)
      × (d.global_score ≡ c.global_score)
      × (d.fullness_notices_sent ≡ c.fullness_notices_sent)
      × (d.center_last_full_status ≡ c.center_last_full_status)
hand_out_keeps [] c = (refl, refl, refl, refl)
hand_out_keeps ((q, b) ∷ sent) c = hand_out_keeps sent (handed c)

module _ (r : ℕ) (c : Center) (low : 0 < r) (high : r < c.world_size) where
  pub clear-Tells : Tells r c (clear_buffer c).0 (clear_buffer c).1
  unfolding clear_buffer
  clear-Tells =
      let d = dispatch_to_available c.process_state c.queue in
      let (e, f, g, h) = hand_out_keeps d.sent (dispatched d c) in
      silent r c (clear_buffer c).0 (clear_buffer c).1 (hand_out-scores r d.sent (dispatched d c))
        (hand_out-fullness r d.sent (dispatched d c)) e f g

  pub monitor-Tells :
      (memory now : ℕ)
      → Tells r c
          (monitor_and_notify_center_status memory now c).0
          (monitor_and_notify_center_status memory now c).1
  monitor-Tells memory now =
      let (none_sent, count, global, notices, status) = monitor_tells r c low high memory now in
      record {
        scores = omega (arith, ap length none_sent, count);
        global = global ∙ ap (last c.global_score) (sym none_sent);
        notices = notices;
      }

  pub broadcast-Tells :
      (fl : Floats) (s : Score)
      → Tells r c (maybe_broadcast_global_score fl s c).0 (maybe_broadcast_global_score fl s c).1
  broadcast-Tells fl s =
      let (none_sent, notices, status, count, global) = broadcast_tells r c low high fl s in
      record {
        scores = count;
        global = global;
        notices = omega (arith, ap length none_sent, notices);
      }

  -- The queue of a center that is far too full stays too full when each worker has got a task.
  pub clear-queue :
      length c.process_state ≡ c.world_size
      → length c.queue ≤ length (clear_buffer c).0.queue + (c.world_size - 1)
  unfolding clear_buffer
  clear-queue states =
      let d = dispatch_to_available c.process_state c.queue in
      let (idle_now, size, tasks, few) = idle_workers-dispatch c.process_state c.queue in
      omega (arith, ap length (hand_out_queue d.sent (dispatched d c)), tasks, few, states)

  pub clear-status : (clear_buffer c).0.center_last_full_status ≡ c.center_last_full_status
  unfolding clear_buffer
  clear-status =
      let d = dispatch_to_available c.process_state c.queue in
      (hand_out_keeps d.sent (dispatched d c)).3

  pub clear-fullness : fullness_to r (clear_buffer c).1 ≡ []
  unfolding clear_buffer
  clear-fullness =
      let d = dispatch_to_available c.process_state c.queue in
      hand_out-fullness r d.sent (dispatched d c)

  pub clear-world : (clear_buffer c).0.world_size ≡ c.world_size
  unfolding clear_buffer
  clear-world =
      let d = dispatch_to_available c.process_state c.queue in
      (hand_out_lem d.sent (dispatched d c)).4
