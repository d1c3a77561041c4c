-- ===== src/Central/Worker.antt =====
-- mpi_centralized_scheduler.hpp, at a worker: what comes from the center alone, and the end of the run.
-- The two lists are the messages of SCORE_UPDATE, and of CENTER_IS_FULL (true) and CENTER_IS_FREE (false),
-- that are on their way, oldest first: MPI keeps the order of one sender on one communicator.
use gempba.Base.{last, ℕ, ◌+◌, if◌then◌else◌, Bool, List, [], ◌∷◌, length, ltb, ◌==◌, not, ◌||◌}
use gempba.Score.Defs.{Score}
use gempba.Termination.Detector.{Detector}
use gempba.Termination.Handlers.{accepts_termination}

pub record Worker : Type 0 where
  pub score_updates_received : ℕ
  pub fullness_notices_received : ℕ
  pub global_score : Score
  pub is_center_full : Bool

abbrev pub receive_score_from_center : Score → Worker → Worker
receive_score_from_center s w = record w {
  global_score = s;
  score_updates_received = w.score_updates_received + 1;
}

-- consume_center_is_full_tag and consume_center_is_free_tag
abbrev pub consume_fullness_tag : Bool → Worker → Worker
consume_fullness_tag full w = record w {
  is_center_full = full;
  fullness_notices_received = w.fullness_notices_received + 1;
}

pub data Drained : Type 0 where
  -- the probe waits for a message that was not sent
  blocked : Drained
  thrown : Drained
  drained : Worker → List Score → List Bool → Drained

-- The check behind the two loops.
abbrev finish : ℕ → ℕ → Worker → List Score → List Bool → Drained
finish scores notices w ps pf =
    if not (w.score_updates_received == scores) || not (w.fullness_notices_received == notices)
    then thrown
    else drained w ps pf

unfoldable pub drain_fullness : ℕ → ℕ → Worker → List Score → List Bool → Drained
drain_fullness scores notices w ps [] =
    if ltb w.fullness_notices_received notices then blocked else finish scores notices w ps []
drain_fullness scores notices w ps (f ∷ pf) =
    let rest = drain_fullness scores notices (consume_fullness_tag f w) ps pf in
    if ltb w.fullness_notices_received notices then rest else finish scores notices w ps (f ∷ pf)

unfoldable pub drain_center_messages : ℕ → ℕ → Worker → List Score → List Bool → Drained
unfolding drain_fullness
drain_center_messages scores notices w [] pf =
    if ltb w.score_updates_received scores then blocked else drain_fullness scores notices w [] pf
drain_center_messages scores notices w (s ∷ ps) pf =
    let rest = drain_center_messages scores notices (receive_score_from_center s w) ps pf in
    if ltb w.score_updates_received scores
    then rest
    else drain_fullness scores notices w (s ∷ ps) pf

-- `queued` and `transmitting` are the worker's own task on its way out.
unfoldable pub process_termination :
    Detector → Bool → Bool → ℕ → ℕ → Worker → List Score → List Bool → Drained
unfolding drain_center_messages
process_termination d queued transmitting scores notices w ps pf =
    if accepts_termination d queued transmitting
    then drain_center_messages scores notices w ps pf
    else thrown

-- The worker after all these messages.
abbrev pub after : Worker → List Score → List Bool → Worker
after w ps pf = record {
  score_updates_received = w.score_updates_received + length ps;
  fullness_notices_received = w.fullness_notices_received + length pf;
  global_score = last w.global_score ps;
  is_center_full = last w.is_center_full pf;
}
