-- ===== src/Semi/Drain.antt =====
-- Draining at the termination of a worker that has next processes.
use gempba.Base.{
  last, ℕ, ◌+◌, ◌<◌, ◌≡◌, refl, sym, ◌∙◌, ap, true, false, List, [], ◌∷◌, ◌++◌, some, length, ltb,
  arith,
}
use gempba.Score.Defs.{Score, Floats, Goal}
use gempba.Tree.Nodes.{Tree}
use gempba.Central.Tasks.{Bundle}
use gempba.Central.Run.{split_length, split_last}
use gempba.Termination.Detector.{Detector}
use gempba.Termination.Handlers.{accepts_termination}
use gempba.Semi.Center.{Center, Out, notify_termination}
use gempba.Semi.Loop.{Message, start, handle, ends, Reach}
use gempba.Semi.Notices.{scores_to, nexts_to, endings_to}
use gempba.Semi.Ending.{termination_counts}
use gempba.Semi.Worker.{
  Receiver, drained, drain_nexts, drain_center_messages, receive_score_from_center,
  receive_next_process, process_termination, written, after,
}

after_next :
    (w : Receiver) (ks : List ℕ) (pn : List (List ℕ))
    → after (receive_next_process ks w) [] pn ≡ after w [] (ks ∷ pn)
after_next w ks pn =
    ap (λ n. record (after w [] (ks ∷ pn)) { next_processes_received = n }) (omega arith)

after_score :
    (w : Receiver) (s : Score) (ps : List Score) (pn : List (List ℕ))
    → after (receive_score_from_center s w) ps pn ≡ after w (s ∷ ps) pn
after_score w s ps pn =
    ap (λ n. record (after w (s ∷ ps) pn) { score_updates_received = n }) (omega arith)

nexts_drained :
    (scores nexts : ℕ) (w : Receiver) (ps : List Score) (pn : List (List ℕ))
    → w.score_updates_received ≡ scores
    → w.next_processes_received + length pn ≡ nexts
    → drain_nexts scores nexts w ps pn ≡ drained (after w [] pn) ps []
unfolding drain_nexts
nexts_drained scores nexts w ps [] e f = ground arith
nexts_drained scores nexts w ps (ks ∷ pn) e f =
    let more : ltb w.next_processes_received nexts ≡ true = ground arith in
    rw more (
      nexts_drained scores nexts (receive_next_process ks w) ps pn e (omega (arith, f))
      ∙ ap (λ v. drained v ps []) (after_next w ks pn))

drain_exact :
    (scores nexts : ℕ) (w : Receiver) (ps : List Score) (pn : List (List ℕ))
    → w.score_updates_received + length ps ≡ scores
    → w.next_processes_received + length pn ≡ nexts
    → drain_center_messages scores nexts w ps pn ≡ drained (after w ps pn) [] []
unfolding drain_center_messages
drain_exact scores nexts w [] pn e f =
    let enough : ltb w.score_updates_received scores ≡ false = ground arith in
    rw enough (nexts_drained scores nexts w [] pn (omega (arith, e)) f)
drain_exact scores nexts w (s ∷ ps) pn e f =
    let more : ltb w.score_updates_received scores ≡ true = ground arith in
    rw more (
      drain_exact scores nexts (receive_score_from_center s w) ps pn (omega (arith, e)) f
      ∙ ap (λ v. drained v [] []) (after_score w s ps pn))

-- At the end of the run. The center's last message is handled, and it sends the worker the two counts `a` and
-- `b`. A quiescent worker with no task of its own on its way out has received the scores `got` and the next
-- processes `had`, in the order they were sent; it holds the last of these scores, or the first score of the
-- run, and whatever cells its receptions and its own pushes have left. It then receives exactly the rest, `ps`
-- and `pn`: it waits for no message that was not sent and raises nothing, no message is left, it holds the
-- center's global score, and each announcement of the rest has been written over its first cells, in order.
pub told_all :
    {fl : Floats} {seed : Bundle} {c d : Center} {outs more : List Out} (n : ℕ) (t : Tree)
    (g : Goal) (s : Score) (r : ℕ) (m : Message) (k : Detector) (w : Receiver) (a b : ℕ)
    (got ps : List Score) (had pn : List (List ℕ))
    → Reach fl (start n t g s) seed c outs
    → 0 < r
    → r < n
    → handle fl m c ≡ some (d, more)
    → ends m d ≡ true
    → endings_to r (notify_termination d) ≡ (a, b) ∷ []
    → scores_to r (outs ++ more) ≡ got ++ ps
    → nexts_to r (outs ++ more) ≡ had ++ pn
    → w.score_updates_received ≡ length got
    → w.next_processes_received ≡ length had
    → w.global_score ≡ last s got
    → accepts_termination k false false ≡ true
    → (w' : Receiver) × (process_termination k false false a b w ps pn ≡ drained w' [] [])
      × (w'.global_score ≡ d.global_score)
      × (w'.next_processes ≡ written pn w.next_processes)
unfolding process_termination
told_all {d} {outs} {more} n t g s r m k w a b got ps had pn before low high e over ended scores
      nexts counted_scores counted holds quiet =
    let (counts, final) = termination_counts n t g s r m before low high e over in
    let both = first_of (sym ended ∙ counts) in
    let missing_scores =
      split_length (scores_to r (outs ++ more)) got ps a scores (sym (ap (λ p. p.0) both)) in
    let missing =
      split_length (nexts_to r (outs ++ more)) had pn b nexts (sym (ap (λ p. p.1) both)) in
    (
      after w ps pn,
      rw quiet (
          drain_exact a b w ps pn (omega (arith, counted_scores, missing_scores))
            (omega (arith, counted, missing))),
      ap (λ v. last v ps) holds
          ∙ split_last s d.global_score (scores_to r (outs ++ more)) got ps scores final,
      refl,
    )
  where
    first_of : {x y : ℕ × ℕ} → x ∷ [] ≡ y ∷ [] → x ≡ y
    first_of h = cc
