-- ===== src/Clock/Reading.antt =====
-- What `fill` reads.
use gempba.Base.{ℕ, ◌≡◌, true, arith}
use gempba.Clock.Defs.{Clock, on_run_end, fill}

-- The end of a run freezes the reading: at any later time `fill` gives what it gave at the end.
run_end_freezes :
    (c : Clock) (now later : ℕ) → c.in_run ≡ true → fill later (on_run_end now c) ≡ fill now c
unfolding fill on_run_end
run_end_freezes c now later h = ground arith
