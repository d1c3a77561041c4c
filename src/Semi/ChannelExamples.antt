-- ===== src/Semi/ChannelExamples.antt =====
-- Runs of the theorems on the channel of a worker.
use gempba.Base.{
  ℕ, ◌<◌, ◌≡◌, ◌≢◌, refl, sym, subst, true, false, List, [], ◌∷◌, none, some, All, inr, arith,
}
use gempba.Termination.Detector.{init}
use gempba.Central.Tasks.{Bundle}
use gempba.Semi.Channel.{
  Worker, can_open, force_push, overwrite, update_next, opened, IsNext, open_channel, update, Reach,
  start, step,
}
use gempba.Semi.Quiet.{pushed_worker}
use gempba.Semi.Funneling.{force_push_lem}

abbrev seed : Bundle
seed = record { bytes = 3 ∷ 1 ∷ []; runnable_id = 7 }

-- A worker that has been told of the worker 2 opens its channel, pushes a task and sends it.
abbrev quiet : Worker
quiet = record {
  rank = 1;
  transmitting = false;
  destination_rank = none;
  tasks_bundle_queue = [];
  next_processes = none ∷ none ∷ none ∷ [];
  next_process = none;
  termination = init false;
  sent_tasks = 0;
  total_requests_number = 0;
}

abbrev told_of_two : Worker
told_of_two = update_next (2 ∷ []) quiet

two_known : can_open told_of_two ≡ true
unfolding can_open update_next overwrite
two_known = refl

abbrev Announced : List ℕ → Type 0
Announced ks = ks ≡ 2 ∷ []

other_than_one : All (IsNext 1) (2 ∷ [])
other_than_one = ((omega arith, λ e. absurd (omega arith)), tt)

others : (ks : List ℕ) → Announced ks → All (IsNext 1) ks
others ks e = subst (All (IsNext 1)) (sym e) other_than_one

opened-Reach : Reach Announced 1 (record { worker = told_of_two; hand = none; holder = opened })
opened-Reach =
    step
      (step (start quiet (none ∷ none ∷ []) refl refl refl refl refl (refl, (refl, tt)))
        (update quiet (2 ∷ []) (inr refl)))
      (open_channel told_of_two none two_known)

force_push_lem_example :
    (v : Worker) × (r : ℕ) × (force_push seed told_of_two ≡ some v)
    × (v.tasks_bundle_queue ≡ seed ∷ [])
    × (v.destination_rank ≡ some r)
    × (told_of_two.next_process ≡ some r)
    × (0 < r)
    × (r ≢ 1)
force_push_lem_example = force_push_lem 1 seed others opened-Reach refl refl

abbrev popped_worker : Worker
popped_worker = record (pushed_worker seed told_of_two) { tasks_bundle_queue = [] }
