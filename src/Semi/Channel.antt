-- ===== src/Semi/Channel.antt =====
-- mpi_semi_centralized_scheduler.hpp and .cpp, at a worker: its channel to the next processes. A thread of
-- the pool opens the channel, which locks the mutex, and may push one task; the funneling thread takes the
-- task out of the queue and sends it. The parts under the mutex are one step each; the main loop receives the
-- announcements of next processes without the mutex. -1 is `none`.
use gempba.Base.{
  ℕ, ◌+◌, ◌<◌, ltb, if◌then◌else◌, Bool, true, false, ◌&&◌, not, List, [], ◌∷◌, ◌≡◌, ◌≢◌, Option,
  none, some, All, length, ◌⊎◌,
}
use gempba.Termination.Detector.{Detector}
use gempba.Termination.Handlers.{Msg, send_task}
use gempba.Ranks.Shift.{shift_left}
use gempba.Central.Tasks.{Bundle}

pub record Worker : Type 0 where
  pub rank : ℕ
  pub transmitting : Bool
  pub destination_rank : Option ℕ
  pub tasks_bundle_queue : List Bundle
  pub next_processes : List (Option ℕ)
  pub next_process : Option ℕ
  pub termination : Detector
  pub sent_tasks : ℕ
  pub total_requests_number : ℕ

abbrev pub is_rank : Option ℕ → Bool
is_rank none = false
is_rank (some r) = ltb 0 r

abbrev pub is_empty {ℓ} : {A : Type ℓ} → List A → Bool
is_empty [] = true
is_empty (x ∷ xs) = false

-- The tests of `try_open_transmission_channel`, once it has the mutex.
unfoldable pub can_open : Worker → Bool
can_open w = not w.transmitting && is_rank w.next_process

abbrev pub enqueue : Bundle → Option (List (Option ℕ)) → Worker → Option Worker
enqueue b none w = none
enqueue b (some cells) w =
    if is_empty w.tasks_bundle_queue
    then some (record w { next_processes = cells; tasks_bundle_queue = b ∷ [] })
    else none

-- `none` is an exception: an empty task, an empty list of ranks, or a queue that is not empty.
unfoldable pub force_push : Bundle → Worker → Option Worker
force_push b w =
    let v = record w { transmitting = true; destination_rank = w.next_process } in
    if is_empty b.bytes then none else enqueue b (shift_left w.next_processes) v

abbrev pub close_send : Worker → List Bundle → Option Worker
close_send w [] = some (record w { transmitting = false })
close_send w (b ∷ bs) = none

abbrev pub sent_with : Worker → Option (Detector × List Msg) → Option (Worker × List Msg)
sent_with w none = none
sent_with w (some (d, msgs)) =
    elim (close_send
      (record w {
        termination = d;
        destination_rank = none;
        sent_tasks = w.sent_tasks + 1;
        total_requests_number = w.total_requests_number + 1;
      })
      w.tasks_bundle_queue) [ none ↦ none | some v ↦ some (v, msgs) ]

-- The greatest `int`
abbrev pub int_max : ℕ
int_max = 2147483647

-- The inner loop of `task_funneling`: `none` is one of its exceptions, or of `send_task`.
unfoldable pub send_popped : Bundle → Worker → Option (Worker × List Msg)
send_popped b w =
    if ltb int_max (length b.bytes)
    then none
    else sent_with w (send_task w.rank w.destination_rank w.termination)

-- MPI_Recv writes over the first cells.
unfoldable pub overwrite : List ℕ → List (Option ℕ) → List (Option ℕ)
overwrite [] cells = cells
overwrite (k ∷ ks) [] = []
overwrite (k ∷ ks) (c ∷ cells) = some k ∷ overwrite ks cells

abbrev pub head : List (Option ℕ) → Option ℕ
head [] = none
head (c ∷ cells) = c

-- receive_next_process
unfoldable pub receive_next : List ℕ → Worker → Worker
unfolding overwrite
receive_next ks w = record w { next_processes = overwrite ks w.next_processes }

-- receive_next_process, with the empty list if nothing has arrived, and update_next_process
unfoldable pub update_next : List ℕ → Worker → Worker
unfolding overwrite
update_next ks w =
    let cells = overwrite ks w.next_processes in
    record w { next_processes = cells; next_process = head cells }

-- Who holds the mutex between two steps: nobody, or a thread of the pool that has not pushed yet, or has.
pub data Holder : Type 0 where
  free opened pushed : Holder

-- `hand` is the task that the funneling thread has taken out of the queue.
pub record Shared : Type 0 where
  pub worker : Worker
  pub hand : Option Bundle
  pub holder : Holder

abbrev pub IsNext : ℕ → ℕ → Type 0
IsNext me k = (0 < k) × (k ≢ me)

-- The steps of the pool, of the funneling thread and of the main loop. `Announced` are the messages with next
-- processes that the center sends this worker.
pub data Step (Announced : List ℕ → Type 0) : Shared → Shared → Type 0 where
  open_channel :
      (w : Worker) (hand : Option Bundle)
      → can_open w ≡ true
      → Step Announced
          (record { worker = w; hand = hand; holder = free })
          (record { worker = w; hand = hand; holder = opened })
  push :
      (w v : Worker) (hand : Option Bundle) (b : Bundle)
      → force_push b w ≡ some v
      → Step Announced
          (record { worker = w; hand = hand; holder = opened })
          (record { worker = v; hand = hand; holder = pushed })
  leave :
      (w : Worker) (hand : Option Bundle) (h : Holder)
      → Step Announced
          (record { worker = w; hand = hand; holder = h })
          (record { worker = w; hand = hand; holder = free })
  pop :
      (w : Worker) (b : Bundle) (bs : List Bundle) (h : Holder)
      → w.tasks_bundle_queue ≡ b ∷ bs
      → Step Announced
          (record { worker = w; hand = none; holder = h })
          (record { worker = record w { tasks_bundle_queue = bs }; hand = some b; holder = h })
  send :
      (w v : Worker) (b : Bundle) (msgs : List Msg)
      → send_popped b w ≡ some (v, msgs)
      → Step Announced
          (record { worker = w; hand = some b; holder = free })
          (record { worker = v; hand = none; holder = free })
  receive :
      (w : Worker) (hand : Option Bundle) (h : Holder) (ks : List ℕ)
      → Announced ks
      → Step Announced
          (record { worker = w; hand = hand; holder = h })
          (record { worker = receive_next ks w; hand = hand; holder = h })
  update :
      (w : Worker) (ks : List ℕ)
      → (ks ≡ []) ⊎ Announced ks
      → Step Announced
          (record { worker = w; hand = none; holder = free })
          (record { worker = update_next ks w; hand = none; holder = free })

-- From a worker that has nothing to send, and a list of cells, all -1.
pub data Reach (Announced : List ℕ → Type 0) (me : ℕ) : Shared → Type 0 where
  start :
      (w : Worker) (cells : List (Option ℕ))
      → w.rank ≡ me
      → w.transmitting ≡ false
      → w.tasks_bundle_queue ≡ []
      → w.next_process ≡ none
      → w.next_processes ≡ none ∷ cells
      → All (λ c. c ≡ none) cells
      → Reach Announced me (record { worker = w; hand = none; holder = free })
  step : {s t : Shared} → Reach Announced me s → Step Announced s t → Reach Announced me t
