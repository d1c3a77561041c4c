-- ===== src/Central/Drain.antt =====
-- Draining at the termination.
use gempba.Base.{ℕ, ◌+◌, ◌<◌, ◌≡◌, ◌∙◌, ap, Bool, true, false, List, [], ◌∷◌, length, ltb, arith}
use gempba.Score.Defs.{Score}
use gempba.Central.Worker.{
  Worker, thrown, drained, drain_fullness, drain_center_messages, receive_score_from_center,
  consume_fullness_tag, after,
}

after_notice :
    (w : Worker) (x : Bool) (pf : List Bool)
    → after (consume_fullness_tag x w) [] pf ≡ after w [] (x ∷ pf)
after_notice w x pf =
    ap (λ n. record (after w [] (x ∷ pf)) { fullness_notices_received = n }) (omega arith)

after_score :
    (w : Worker) (s : Score) (ps : List Score) (pf : List Bool)
    → after (receive_score_from_center s w) ps pf ≡ after w (s ∷ ps) pf
after_score w s ps pf =
    ap (λ n. record (after w (s ∷ ps) pf) { score_updates_received = n }) (omega arith)

fullness_drained :
    (scores notices : ℕ) (w : Worker) (ps : List Score) (pf : List Bool)
    → w.score_updates_received ≡ scores
    → w.fullness_notices_received + length pf ≡ notices
    → drain_fullness scores notices w ps pf ≡ drained (after w [] pf) ps []
unfolding drain_fullness
fullness_drained scores notices w ps [] e f = ground arith
fullness_drained scores notices w ps (x ∷ pf) e f =
    let more : ltb w.fullness_notices_received notices ≡ true = ground arith in
    rw more (
      fullness_drained scores notices (consume_fullness_tag x w) ps pf e (omega (arith, f))
      ∙ ap (λ v. drained v ps []) (after_notice w x pf))

pub drain_exact :
    (scores notices : ℕ) (w : Worker) (ps : List Score) (pf : List Bool)
    → w.score_updates_received + length ps ≡ scores
    → w.fullness_notices_received + length pf ≡ notices
    → drain_center_messages scores notices w ps pf ≡ drained (after w ps pf) [] []
unfolding drain_center_messages
drain_exact scores notices w [] pf e f =
    let enough : ltb w.score_updates_received scores ≡ false = ground arith in
    rw enough (fullness_drained scores notices w [] pf (omega (arith, e)) f)
drain_exact scores notices w (s ∷ ps) pf e f =
    let more : ltb w.score_updates_received scores ≡ true = ground arith in
    rw more (
      drain_exact scores notices (receive_score_from_center s w) ps pf (omega (arith, e)) f
      ∙ ap (λ v. drained v [] []) (after_score w s ps pf))

fullness_over :
    (scores notices : ℕ) (w : Worker) (ps : List Score) (pf : List Bool)
    → scores < w.score_updates_received
    → w.fullness_notices_received + length pf ≡ notices
    → drain_fullness scores notices w ps pf ≡ thrown
unfolding drain_fullness
fullness_over scores notices w ps [] over f = ground arith
fullness_over scores notices w ps (x ∷ pf) over f =
    let more : ltb w.fullness_notices_received notices ≡ true = ground arith in
    rw more (fullness_over scores notices (consume_fullness_tag x w) ps pf over (omega (arith, f)))

-- drain_center_messages of a worker that has received more scores than the center says that it sent, while
-- just the missing fullness notices are on their way: it throws, whatever scores are on their way.
drain_over :
    (scores notices : ℕ) (w : Worker) (ps : List Score) (pf : List Bool)
    → scores < w.score_updates_received
    → w.fullness_notices_received + length pf ≡ notices
    → drain_center_messages scores notices w ps pf ≡ thrown
unfolding drain_center_messages
drain_over scores notices w [] pf over f =
    let enough : ltb w.score_updates_received scores ≡ false = ground arith in
    rw enough (fullness_over scores notices w [] pf over f)
drain_over scores notices w (s ∷ ps) pf over f =
    let enough : ltb w.score_updates_received scores ≡ false = ground arith in
    rw enough (fullness_over scores notices w (s ∷ ps) pf over f)
