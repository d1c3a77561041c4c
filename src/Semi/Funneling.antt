-- ===== src/Semi/Funneling.antt =====
-- No exception is raised on a worker's channel to the next processes.
use gempba.Base.{ℕ, ◌<◌, false, List, [], ◌∷◌, ◌≡◌, ◌≢◌, refl, subst, some, All}
use gempba.Central.Tasks.{Bundle}
use gempba.Semi.Channel.{Worker, is_empty, force_push, opened, Shared, IsNext, Reach}
use gempba.Semi.Cells.{IsCell}
use gempba.Semi.Quiet.{
  MayPush, rank_of, opened_now, Idle-queue, pushed_worker, push_lem, Reach-Quiet,
}

-- If the center announces to the worker `me` other workers only, then, however the threads interleave: a
-- thread of the pool that has opened the channel and pushes a task that is not empty gets no exception. The
-- task is then the only one in the queue, and goes to the next process, which is another worker.
pub force_push_lem :
    {Announced : List ℕ → Type 0} {s : Shared} (me : ℕ) (b : Bundle)
    → ((ks : List ℕ) → Announced ks → All (IsNext me) ks)
    → Reach Announced me s
    → s.holder ≡ opened
    → is_empty b.bytes ≡ false
    → (v : Worker) × (r : ℕ) × (force_push b s.worker ≡ some v)
      × (v.tasks_bundle_queue ≡ b ∷ [])
      × (v.destination_rank ≡ some r)
      × (s.worker.next_process ≡ some r)
      × (0 < r)
      × (r ≢ me)
force_push_lem {s} me b others before holding full =
    let q = Reach-Quiet me others before in
    let (quiet, ranked) = opened_now s.worker (subst (λ h. MayPush h s.worker) holding q.guard) in
    let (r, to) = rank_of s.worker.next_process ranked in
    let none_queued = (Idle-queue s.worker s.hand quiet q.load).1 in
    let (low, other) =
      subst (IsCell me) to (subst (λ n. IsCell n s.worker.next_process) q.ranked q.next) in
    (
      pushed_worker b s.worker,
      r,
      push_lem b s.worker full q.room none_queued,
      refl,
      to,
      to,
      low,
      other,
    )
