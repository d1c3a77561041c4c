-- ===== src/Clock/Examples.antt =====
-- A worker that waits, runs a task and waits again.
use gempba.Base.{ℕ, ◌+◌, ◌≤◌, ◌≡◌, refl, List, [], ◌∷◌, arith}
use gempba.Clock.Defs.{Event, run_start, worker_waiting, worker_running, init, run, fill, step}
use gempba.Clock.Bounds.{times_bounded}

abbrev one_task : List (ℕ × Event)
one_task =
    (100, run_start) ∷ (100, worker_waiting) ∷ (130, worker_running) ∷ (190, worker_waiting) ∷ []

one_task_times : (fill 200 (run init one_task)).sched_running_microseconds ≡ 60
unfolding fill run init step
one_task_times = refl

times_bounded_example :
    ((fill 200 (run init one_task)).sched_running_microseconds
        + (fill 200 (run init one_task)).sched_waiting_microseconds
        + 100
      ≤ 200)
    × ((fill 200 (run init one_task)).coordinator_full_microseconds + 100 ≤ 200)
times_bounded_example = times_bounded 100 200 one_task (omega arith)
