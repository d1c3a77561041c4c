-- ===== src/Clock/Latency.antt =====
-- The time from an assignment to its acceptance.
use gempba.Base.{ℕ, ◌+◌, ◌-◌, ◌<◌, ◌≤◌, ◌≡◌, arith}
use gempba.Clock.Defs.{Clock, on_assignment, on_assignment_accepted, max_workers, unassigned, u64}
use gempba.Clock.Bounds.{limit}

-- For a rank of the table, an assignment at `given` that is accepted at `taken` adds the time between to
-- the total (modulo 2^64), counts one, raises the maximum if need be and changes no other rank's entry; a
-- second acceptance with no assignment between changes nothing.
accepted_once :
    (rank given taken later : ℕ) (c : Clock)
    → rank < max_workers
    → given < unassigned
    → given ≤ taken
    → taken < limit
    → let d = on_assignment_accepted rank taken (on_assignment rank given c) in
      (d.assign_latency_total ≡ u64 (c.assign_latency_total + (taken - given)))
      × (d.assign_count ≡ u64 (c.assign_count + 1))
      × (c.assign_latency_max ≤ d.assign_latency_max)
      × (taken - given ≤ d.assign_latency_max)
      × ((j : ℕ) → (j ≡ rank → ⊥) → d.assigned_at j ≡ c.assigned_at j)
      × (on_assignment_accepted rank later d ≡ d)
unfolding on_assignment on_assignment_accepted
accepted_once rank given taken later c h k o r =
    (ground arith, ground arith, ground arith, ground arith, λ j ne. ground arith, ground arith)
