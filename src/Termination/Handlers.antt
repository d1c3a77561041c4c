-- ===== src/Termination/Handlers.antt =====
-- What a rank does with its detector, with the messages that it sends as a list.
-- The tests of the semi-centralized scheduler's `send_task` are kept; the centralized scheduler sends
-- to the center and from it without them.
use gempba.Base.{ℕ, ◌==◌, if◌then◌else◌, ltb, Bool, true, false, List, [], ◌∷◌, Option, none, some}
use gempba.Termination.Detector.{
  Detector, on_task_sent, on_task_received, on_ack_received, on_passive, is_quiescent,
}

-- A task, or the empty acknowledgement TASK_RECEIVED: the rank that sends it, and the rank it goes to.
pub data Msg : Type 0 where
  task : ℕ → ℕ → Msg
  ack : ℕ → ℕ → Msg

-- Behind `on_task_received` and `on_passive`: `send_task_ack` to the rank that they name, if any.
unfoldable pub send_task_ack : ℕ → Option ℕ → List Msg
send_task_ack me none = []
send_task_ack me (some dest) = ack me dest ∷ []

-- A TASK message of `sender`: the acknowledgement, if it is due at once.
unfoldable pub receive_task : ℕ → Detector → ℕ → Detector × List Msg
unfolding send_task_ack
receive_task me d sender = let (d', now) = on_task_received d sender in (d', send_task_ack me now)

unfoldable pub release_parent_if_passive : ℕ → Detector → Detector × List Msg
unfolding send_task_ack
release_parent_if_passive me d = let (d', now) = on_passive d in (d', send_task_ack me now)

-- `none` is the exception "received an unexpected task acknowledgement".
unfoldable pub process_task_received_ack : Detector → Option Detector
process_task_received_ack d =
    let (d', expected) = on_ack_received d in if expected then some d' else none

unfoldable pub send_to : ℕ → ℕ → Detector → Detector × List Msg
send_to me dest d = (on_task_sent d, task me dest ∷ [])

-- `send_task`: a destination of -1 is `none`. The result `none` is one of its two exceptions.
unfoldable pub send_task : ℕ → Option ℕ → Detector → Option (Detector × List Msg)
unfolding send_to
send_task me none d = none
send_task me (some dest) d =
    if ltb 0 dest then (if dest == me then none else some (send_to me dest d)) else none

-- `process_termination` throws unless this holds; `queued` and `transmitting` are the rank's own work.
unfoldable pub accepts_termination : Detector → Bool → Bool → Bool
accepts_termination d queued transmitting =
    if is_quiescent d
    then (if queued then false else if transmitting then false else true)
    else false
