-- ===== src/Central/Run.antt =====
-- The run of the center, and the draining of a worker at its end.
use gempba.Base.{
  last, last-append, ℕ, ◌+◌, ◌<◌, ◌≡◌, refl, sym, ◌∙◌, ap, subst, ◌==◌, ◌&&◌, Bool, true, false,
  List, [], ◌∷◌, ◌++◌, some, length, length-append, ◌⊎◌, inl, inr, arith,
}
use mathlib.Core.List.{append_assoc}
use gempba.Score.Defs.{Score, Floats, Goal}
use gempba.Central.Tasks.{Bundle}
use gempba.Central.Center.{Center, Out, send_seed, clear_buffer}
use gempba.Central.Loop.{
  Message, is_empty, start, handle, is_over, tidy, round, finished, Expected, Holds,
  round-continues, round-finished, Reach, seeded, idle, receive,
}
use gempba.Central.Invariant.{Counted, Reach-Counted, handle-Counted, monitor-Unchanged}
use gempba.Central.Notices.{scores_to, fullness_to}
use gempba.Central.Told.{Told, Agrees, Repeats, clear-world}
use gempba.Central.Status.{State, tidy_lem, handle_lem}
use gempba.Central.Worker.{Worker, drained, drain_center_messages, after}
use gempba.Central.Drain.{drain_exact}

tidy_world :
    (r memory now : ℕ) (c : Center)
    → 0 < r
    → r < c.world_size
    → (tidy memory now c).0.world_size ≡ c.world_size
unfolding tidy
tidy_world r memory now c low high =
    (monitor-Unchanged memory now (clear_buffer c).0).world ∙ clear-world r c low high

start-Told :
    (n : ℕ) (g : Goal) (s : Score) (seed : Bundle) (r : ℕ)
    → let (c, outs) = send_seed seed (start n g s) in
      (c.world_size ≡ n) × Told s r c outs × Agrees r c outs
unfolding send_seed start
start-Told n g s seed r =
    (refl, record { score_count = refl; score_last = refl; fullness_count = refl }, refl)

handled-Told :
    (fl : Floats) (s : Score) (r now : ℕ) (m : Message) (c d : Center) (outs more : List Out)
    → 0 < r
    → r < c.world_size
    → Told s r c outs
    → Agrees r c outs
    → Counted c
    → Expected c m
    → handle fl now m c ≡ some (d, more)
    → State s r d (outs ++ more) × (d.world_size ≡ c.world_size) × Counted d
handled-Told fl s r now m c d outs more low high told agrees v x e =
    let h =
      subst (Holds (λ k sent. State s r k (outs ++ sent) × (k.world_size ≡ c.world_size))) e
        (handle_lem s r low fl now m c outs high told agrees) in
    (h.0, h.1, subst (Holds (λ k sent. Counted k)) e (handle-Counted fl now m c v x))

-- In every state that the center's loop reaches: each worker has been sent as many scores and as many
-- fullness notices as the center counts, the last score is the center's (the starting one, if none was
-- sent), and the last notice is the center's status.
pub Reach-Told :
    {fl : Floats} {n : ℕ} {g : Goal} {s : Score} {seed : Bundle} {c : Center} {outs : List Out}
    (r : ℕ)
    → Reach fl n g s seed c outs
    → 0 < r
    → r < n
    → (c.world_size ≡ n) × Told s r c outs × Agrees r c outs
Reach-Told {n} {g} {s} {seed} r seeded low high = start-Told n g s seed r
Reach-Told {s} r (idle {c} {outs} before memory now) low high =
    let (world, told, agrees) = Reach-Told r before low high in
    let here : r < c.world_size = omega (arith, world) in
    let (told', agrees') =
      tidy_lem s r low memory now c outs here (Reach-Counted before (omega arith))
        (told, inl agrees) in
    (tidy_world r memory now c low here ∙ world, told', agrees')
Reach-Told {fl} {s} r (receive {c} {d} {outs} {more} before memory now m x e) low high =
    let (world, told, agrees) = Reach-Told r before low high in
    let (f, first, handled, final, all) = round-continues fl memory now m c d more e in
    let (state, world', counted) =
      handled-Told fl s r now m c f outs first low (omega (arith, world)) told agrees
        (Reach-Counted before (omega arith)) x handled in
    let here : r < f.world_size = omega (arith, world', world) in
    let (told', agrees') = tidy_lem s r low memory now f (outs ++ first) here counted state in
    let joined = append_assoc outs first (tidy memory now f).1 ∙ ap (λ l. outs ++ l) (sym all) in
    (
      ap (λ k. k.world_size) final ∙ tidy_world r memory now f low here ∙ world' ∙ world,
      subst (λ k. Told s r k (outs ++ more)) (sym final)
          (subst (Told s r (tidy memory now f).0) joined told'),
      subst (λ k. Agrees r k (outs ++ more)) (sym final)
          (subst (Agrees r (tidy memory now f).0) joined agrees'),
    )

empty_length : (d : Bool) (q : List Bundle) → (d && is_empty q) ≡ true → length q ≡ 0
empty_length d [] e = refl
empty_length true (b ∷ bs) e = cc
empty_length false (b ∷ bs) e = cc

empty_queue : (c : Center) → is_over c ≡ true → length c.queue ≡ 0
unfolding is_over
empty_queue c over = empty_length (c.termination.deficit == 0) c.queue over

over_not-Repeats :
    (r n : ℕ) (c : Center) (outs : List Out)
    → is_over c ≡ true
    → Agrees r c outs ⊎ Repeats n r c outs
    → Agrees r c outs
over_not-Repeats r n c outs over (inl agrees) = agrees
over_not-Repeats r n c outs over (inr (was_full, free, many)) =
    absurd (omega (arith, empty_queue c over, many))

-- A worker that has received nothing yet.
abbrev pub fresh : Score → Worker
fresh s = record {
  score_updates_received = 0;
  fullness_notices_received = 0;
  global_score = s;
  is_center_full = false;
}

pub split_length :
    {A : Type 0} (all got ps : List A) (n : ℕ)
    → all ≡ got ++ ps
    → length all ≡ n
    → length got + length ps ≡ n
split_length all got ps n e f = sym (length-append got ps) ∙ ap length (sym e) ∙ f

pub split_last :
    {A : Type 0} (a b : A) (all got ps : List A)
    → all ≡ got ++ ps
    → last a all ≡ b
    → last (last a got) ps ≡ b
split_last a b all got ps e f = sym (last-append a got ps) ∙ ap (last a) (sym e) ∙ f

-- At the end of the run. The center has come to a round that ends its loop. A worker that has received the
-- scores `got` and the notices `had`, in the order they were sent, and so holds the last of them, drains
-- what is left, `ps` and `pf`: it waits for no message that was not sent and raises nothing, no message is
-- left, and it holds the center's global score and the center's status.
pub final_drain :
    {fl : Floats} {n : ℕ} {g : Goal} {s : Score} {seed : Bundle} {c d : Center}
    {outs more : List Out} (r memory now : ℕ) (m : Message) (w : Worker) (got ps : List Score)
    (had pf : List Bool)
    → Reach fl n g s seed c outs
    → 0 < r
    → r < n
    → Expected c m
    → round fl memory now m c ≡ finished d more
    → scores_to r (outs ++ more) ≡ got ++ ps
    → fullness_to r (outs ++ more) ≡ had ++ pf
    → w ≡ after (fresh s) got had
    → (w' : Worker) × (drain_center_messages d.score_updates_sent d.fullness_notices_sent w ps pf
        ≡ drained w' [] [])
      × (w'.global_score ≡ d.global_score)
      × (w'.is_center_full ≡ d.center_last_full_status)
final_drain {fl} {s} {c} {d} {outs} {more} r memory now m w got ps had pf before low high x e scores
      fullness holds =
    let (world, told, agrees) = Reach-Told r before low high in
    let (handled, over) = round-finished fl memory now m c d more e in
    let (state, world', counted) =
      handled-Told fl s r now m c d outs more low (omega (arith, world)) told agrees
        (Reach-Counted before (omega arith)) x handled in
    let agreed = over_not-Repeats r _ d (outs ++ more) over state.1 in
    let end = state.0 in
    let missing_scores =
      split_length (scores_to r (outs ++ more)) got ps d.score_updates_sent scores
        end.score_count in
    let missing =
      split_length (fullness_to r (outs ++ more)) had pf d.fullness_notices_sent fullness
        end.fullness_count in
    (
      after w ps pf,
      drain_exact d.score_updates_sent d.fullness_notices_sent w ps pf
          (omega (arith, ap (λ v. v.score_updates_received) holds, missing_scores))
          (omega (arith, ap (λ v. v.fullness_notices_received) holds, missing)),
      ap (λ v. last v.global_score ps) holds
          ∙ split_last s d.global_score (scores_to r (outs ++ more)) got ps scores end.score_last,
      ap (λ v. last v.is_center_full pf) holds
          ∙ split_last false d.center_last_full_status (fullness_to r (outs ++ more)) had pf
              fullness agreed,
    )
