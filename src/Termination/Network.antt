-- ===== src/Termination/Network.antt =====
-- All ranks and the messages between them, as interleaved steps. Messages are delivered in any order.
-- Rank 0 is the center (CENTER_NODE), the root of the detection: in the semi-centralized scheduler it
-- holds no work after the seed, in the centralized one it holds the queue of tasks.
use gempba.Base.{ℕ, ◌<◌, ◌≡◌, ◌≢◌, ◌==◌, Bool, true, false, List, [], ◌∷◌, ◌++◌, some, update}
use gempba.Termination.Detector.{Detector, init}
use gempba.Termination.Handlers.{
  Msg, task, ack, receive_task, release_parent_if_passive, process_task_received_ack, send_to,
}

pub record Net : Type 0 where
  -- each rank's detector
  pub det : ℕ → Detector
  -- whether the rank has local work: a running task, or a queue that is not empty
  pub busy : ℕ → Bool
  -- what was sent and has not been received
  pub msgs : List Msg

-- The detectors as `init_member_variables` makes them; the center holds the seed.
unfoldable pub start : Net
unfolding init
start = record { det = λ i. init (i == 0); busy = λ i. i == 0; msgs = [] }

-- Rank `i` goes on with a new detector and has sent `r.1`.
abbrev pub post : Net → ℕ → Detector × List Msg → Net
post s i r = record s { det = update s.det i r.0; msgs = r.1 ++ s.msgs }

abbrev pub set_busy : Net → ℕ → Bool → Net
set_busy s i b = record s { busy = update s.busy i b }

pub data Step (n : ℕ) (s : Net) : Net → Type 0 where
  -- a rank with work hands a task out
  send :
      (i k : ℕ)
      → i < n
      → k < n
      → k ≢ i
      → s.busy i ≡ true
      → Step n s (post s i (send_to i k (s.det i)))
  -- a task arrives, and the rank has work
  receive :
      (i k : ℕ) (xs ys : List Msg)
      → s.msgs ≡ xs ++ task i k ∷ ys
      → Step n s
          (set_busy (post (record s { msgs = xs ++ ys }) k (receive_task k (s.det k) i)) k true)
  -- a rank has done all its work
  finish :
      (k : ℕ)
      → k < n
      → s.busy k ≡ true
      → Step n s (set_busy (post s k (release_parent_if_passive k (s.det k))) k false)
  -- a worker receives an acknowledgement in its main loop, so with no task running
  worker_ack :
      (j k : ℕ) (xs ys : List Msg) (d : Detector)
      → s.msgs ≡ xs ++ ack j k ∷ ys
      → k ≢ 0
      → s.busy k ≡ false
      → process_task_received_ack (s.det k) ≡ some d
      → Step n s (post (record s { msgs = xs ++ ys }) k (release_parent_if_passive k d))
  -- the center receives an acknowledgement
  center_ack :
      (j : ℕ) (xs ys : List Msg) (d : Detector)
      → s.msgs ≡ xs ++ ack j 0 ∷ ys
      → process_task_received_ack (s.det 0) ≡ some d
      → Step n s (post (record s { msgs = xs ++ ys }) 0 (d, []))

pub data Reach (n : ℕ) (s : Net) : Net → Type 0 where
  here : Reach n s s
  next : {t u : Net} → Reach n s t → Step n t u → Reach n s u
