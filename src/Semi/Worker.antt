-- ===== src/Semi/Worker.antt =====
-- mpi_semi_centralized_scheduler.hpp, at a worker: what comes from the center alone, and the end of the run.
-- The two lists are the messages of SCORE_UPDATE and of NEXT_PROCESS that are on their way, oldest first: MPI
-- keeps the order of one sender on one communicator.
use gempba.Base.{
  last, ℕ, ◌+◌, if◌then◌else◌, Bool, List, [], ◌∷◌, Option, length, ltb, ◌==◌, not, ◌||◌,
}
use gempba.Score.Defs.{Score}
use gempba.Termination.Detector.{Detector}
use gempba.Termination.Handlers.{accepts_termination}
use gempba.Semi.Channel.{overwrite}

pub record Receiver : Type 0 where
  pub score_updates_received : ℕ
  pub next_processes_received : ℕ
  pub global_score : Score
  pub next_processes : List (Option ℕ)

abbrev pub receive_score_from_center : Score → Receiver → Receiver
receive_score_from_center s w = record w {
  global_score = s;
  score_updates_received = w.score_updates_received + 1;
}

abbrev pub receive_next_process : List ℕ → Receiver → Receiver
receive_next_process ks w = record w {
  next_processes = overwrite ks w.next_processes;
  next_processes_received = w.next_processes_received + 1;
}

pub data Drained : Type 0 where
  -- the probe waits for a message that was not sent
  blocked : Drained
  thrown : Drained
  drained : Receiver → List Score → List (List ℕ) → Drained

-- The check behind the two loops.
abbrev finish : ℕ → ℕ → Receiver → List Score → List (List ℕ) → Drained
finish scores nexts w ps pn =
    if not (w.score_updates_received == scores) || not (w.next_processes_received == nexts)
    then thrown
    else drained w ps pn

unfoldable pub drain_nexts : ℕ → ℕ → Receiver → List Score → List (List ℕ) → Drained
drain_nexts scores nexts w ps [] =
    if ltb w.next_processes_received nexts then blocked else finish scores nexts w ps []
drain_nexts scores nexts w ps (ks ∷ pn) =
    let rest = drain_nexts scores nexts (receive_next_process ks w) ps pn in
    if ltb w.next_processes_received nexts then rest else finish scores nexts w ps (ks ∷ pn)

unfoldable pub drain_center_messages : ℕ → ℕ → Receiver → List Score → List (List ℕ) → Drained
unfolding drain_nexts
drain_center_messages scores nexts w [] pn =
    if ltb w.score_updates_received scores then blocked else drain_nexts scores nexts w [] pn
drain_center_messages scores nexts w (s ∷ ps) pn =
    let rest = drain_center_messages scores nexts (receive_score_from_center s w) ps pn in
    if ltb w.score_updates_received scores then rest else drain_nexts scores nexts w (s ∷ ps) pn

-- `queued` and `transmitting` are the worker's own task on its way out.
unfoldable pub process_termination :
    Detector → Bool → Bool → ℕ → ℕ → Receiver → List Score → List (List ℕ) → Drained
unfolding drain_center_messages
process_termination d queued transmitting scores nexts w ps pn =
    if accepts_termination d queued transmitting
    then drain_center_messages scores nexts w ps pn
    else thrown

-- The cells of the next processes after these messages.
abbrev pub written : List (List ℕ) → List (Option ℕ) → List (Option ℕ)
written [] cells = cells
written (ks ∷ pn) cells = written pn (overwrite ks cells)

-- The worker after all these messages.
abbrev pub after : Receiver → List Score → List (List ℕ) → Receiver
after w ps pn = record {
  score_updates_received = w.score_updates_received + length ps;
  next_processes_received = w.next_processes_received + length pn;
  global_score = last w.global_score ps;
  next_processes = written pn w.next_processes;
}
