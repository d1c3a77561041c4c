-- ===== src/Clock/Bounds.antt =====
-- The times of a clock never exceed the time that has passed.
use gempba.Base.{ℕ, ◌+◌, ◌<◌, ◌≤◌, ◌≡◌, true, List, [], ◌∷◌, arith}
use gempba.Clock.Defs.{Clock, Event, init, step, run, fill}

abbrev pub limit : ℕ
limit = 18446744073709551616

-- With the first event at `t0` and the last at `now`: what was counted fits into the time between.
pub record Inv (t0 now : ℕ) (c : Clock) : Type 0 where
  pub since_past : c.in_run ≡ true → c.since ≤ now
  pub tasks_since : c.in_run ≡ true → c.running_time + c.waiting_time + t0 ≤ c.since
  pub tasks : c.running_time + c.waiting_time + t0 ≤ now
  pub full_since : c.in_run ≡ true → c.coordinator_full_time + t0 ≤ c.since
  pub full : c.coordinator_full_time + t0 ≤ now

pub init-Inv : (t0 : ℕ) → Inv t0 t0 init
unfolding init
init-Inv t0 = ground arith

pub step-Inv :
    (t0 past now : ℕ) (e : Event) (c : Clock)
    → past ≤ now
    → now < limit
    → Inv t0 past c
    → Inv t0 now (step now e c)
unfolding step
step-Inv t0 past now Event.run_start c h k v = ground arith
step-Inv t0 past now Event.run_end c h k v = ground arith
step-Inv t0 past now e c h k v = ground arith

-- Event times that do not go back and stay in range; `end` is the last.
abbrev pub Ordered : ℕ → List (ℕ × Event) → ℕ → Type 0
Ordered past [] end = (past ≤ end) × (end < limit)
Ordered past ((now, e) ∷ es) end = (past ≤ now) × (now < limit) × Ordered now es end

Ordered-end : (past : ℕ) (es : List (ℕ × Event)) (end : ℕ) → Ordered past es end → end < limit
Ordered-end past [] end o = o.1
Ordered-end past ((now, e) ∷ es) end o = Ordered-end now es end o.2

later-Inv : (t0 past now : ℕ) (c : Clock) → past ≤ now → Inv t0 past c → Inv t0 now c
later-Inv t0 past now c h v = ground arith

run-Inv :
    (t0 past end : ℕ) (es : List (ℕ × Event)) (c : Clock)
    → Ordered past es end
    → Inv t0 past c
    → Inv t0 end (run c es)
unfolding run
run-Inv t0 past end [] c o v = later-Inv t0 past end c o.0 v
run-Inv t0 past end ((now, e) ∷ es) c o v =
    run-Inv t0 now end es (step now e c) o.2 (step-Inv t0 past now e c o.0 o.1 v)

fill_fits :
    (t0 now : ℕ) (c : Clock)
    → now < limit
    → Inv t0 now c
    → ((fill now c).sched_running_microseconds + (fill now c).sched_waiting_microseconds + t0 ≤ now)
      × ((fill now c).coordinator_full_microseconds + t0 ≤ now)
unfolding fill
fill_fits t0 now c h v = ground arith

-- Whatever events a clock has seen, at times that do not go back from `t0` on and stay below 2^64: the
-- running and the waiting time that it reports at `end` add up to no more than the time from `t0` to
-- `end`, nor does the time for which it reports the coordinator full exceed that. So no sum wraps.
pub times_bounded :
    (t0 end : ℕ) (es : List (ℕ × Event))
    → Ordered t0 es end
    → let t = fill end (run init es) in
      (t.sched_running_microseconds + t.sched_waiting_microseconds + t0 ≤ end)
      × (t.coordinator_full_microseconds + t0 ≤ end)
times_bounded t0 end es o =
    fill_fits t0 end (run init es) (Ordered-end t0 es end o)
      (run-Inv t0 t0 end es init o (init-Inv t0))
