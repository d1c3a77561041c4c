-- ===== src/Semi/Told.antt =====
-- What each handler of the center tells a worker.
use gempba.Base.{
  last, ℕ, ◌+◌, ◌-◌, ◌<◌, ◌≡◌, refl, sym, ◌∙◌, ap, if◌then◌else◌, true, Bool-cases, List, [], ◌∷◌,
  ◌++◌, Option, none, some, length, ◌==◌, inl, inr, arith,
}
use gempba.Base.Messages.{within, collect-to_ranks, collect-to_no_ranks}
use mathlib.Core.List.{append-nil}
use gempba.Score.Defs.{Score, Floats, should_update}
use gempba.Termination.Handlers.{process_task_received_ack}
use gempba.Tree.Nodes.{Tree, Result, ok, thrown, fault, add_next}
use gempba.Semi.Center.{
  Center, Out, Outcome, score_update, next_process, termination_notice, record_score_proposal,
  record_score_broadcast, record_score_improved, record_assignment, bump, count_at, with_tree,
  assign_next, released, give_next, close_running, reported_running, process_running, take_on,
  reported_available, close_available, process_available, to_workers, maybe_broadcast_global_score,
  notify_termination,
}
use gempba.Semi.Loop.{
  Message, running_state, available_state, score_proposal, task_received, other, acknowledged,
  handle, Holds,
}
use gempba.Semi.Notices.{
  score_for, next_for, ending_for, scores_to, nexts_to, endings_to, scores_to-append,
  nexts_to-append, count_at-bump, length-bump, Tells, one_if,
}

module _ (r : ℕ) where
  pub silent :
      (c : Center) (outs : List Out)
      → scores_to r outs ≡ []
      → nexts_to r outs ≡ []
      → Tells r c c outs
  silent c outs e f = (
    omega (arith, ap length e),
    ap (last c.global_score) (sym e),
    omega (arith, ap length f),
    refl,
    refl,
  )

  pub one_next :
      (c d : Center) (p : ℕ) (ks : List ℕ) (outs : List Out)
      → scores_to r outs ≡ []
      → nexts_to r outs ≡ (if p == r then ks ∷ [] else [])
      → d.score_updates_sent ≡ c.score_updates_sent
      → d.global_score ≡ c.global_score
      → d.next_processes_sent ≡ bump c.next_processes_sent p
      → d.world_size ≡ c.world_size
      → r < length c.next_processes_sent
      → Tells r c d outs
  one_next c d p ks outs none_sent sent same_count same more world h = (
    omega (arith, ap length none_sent, same_count),
    same ∙ ap (last c.global_score) (sym none_sent),
    ap (λ l. count_at l r) more
        ∙ count_at-bump c.next_processes_sent p r h
        ∙ ap (λ n. count_at c.next_processes_sent r + n)
            (one_if ks (p == r) ∙ ap length (sym sent)),
    ap length more ∙ length-bump c.next_processes_sent p,
    world,
  )

  with_tree-Holds :
      (P : Center → List Out → Type 0) (t : Result) (f : Tree → Outcome)
      → ((u : Tree) → Holds P (f u))
      → Holds P (with_tree t f)
  with_tree-Holds P (ok t) f h = h t
  with_tree-Holds P thrown f h = tt
  with_tree-Holds P fault f h = tt

  close_running-Holds :
      (src : ℕ) (c : Center) (o : Outcome)
      → Holds (Tells r c) o
      → Holds (Tells r c) (close_running src o)
  close_running-Holds src c none h = tt
  close_running-Holds src c (some (d, outs)) h = h

  close_available-Holds :
      (c : Center) (o : Outcome) → Holds (Tells r c) o → Holds (Tells r c) (close_available o)
  close_available-Holds c none h = tt
  close_available-Holds c (some (d, outs)) h = h

  assign_next-Tells :
      (p k : ℕ) (c : Center)
      → r < length c.next_processes_sent
      → Holds (Tells r c) (assign_next p k c)
  unfolding assign_next
  assign_next-Tells p k c h = with_tree-Holds (Tells r c) (add_next p k c.process_tree) _ (λ t.
      one_next c (record c { next_processes_sent = bump c.next_processes_sent p }) p (k ∷ [])
        (next_process p (k ∷ []) ∷ record_assignment k ∷ []) refl (append-nil _) refl refl refl refl
        h)

  give_next-Tells :
      (src : ℕ) (child : Option ℕ) (c : Center)
      → r < length c.next_processes_sent
      → Holds (Tells r c) (give_next src child c)
  give_next-Tells src none c h = silent c [] refl refl
  give_next-Tells src (some k) c h = assign_next-Tells src k c h

  take_on-Tells :
      (src : ℕ) (parent : Option ℕ) (c : Center)
      → r < length c.next_processes_sent
      → Holds (Tells r c) (take_on src parent c)
  take_on-Tells src none c h = silent c [] refl refl
  take_on-Tells src (some p) c h = assign_next-Tells p src c h

  running-Tells :
      (src : ℕ) (c : Center)
      → r < length c.next_processes_sent
      → Holds (Tells r c) (process_running src c)
  unfolding process_running
  running-Tells src c h = with_tree-Holds (Tells r c) (released src c.process_tree) _ (λ t.
      close_running-Holds src c _
        (give_next-Tells src _ (record (reported_running src c) { process_tree = t }) h))

  available-Tells :
      (offset src : ℕ) (c : Center)
      → r < length c.next_processes_sent
      → Holds (Tells r c) (process_available offset src c)
  unfolding process_available
  available-Tells offset src c h = with_tree-Holds (Tells r c) (released src c.process_tree) _ (λ t.
      close_available-Holds c _
        (take_on-Tells src _ (record (reported_available src c) { process_tree = t }) h))

module _ (r : ℕ) (c : Center) (low : 0 < r) (high : r < c.world_size) where
  inside : within r 1 (c.world_size - 1) ≡ true
  inside = ground arith

  broadcast-Tells :
      (fl : Floats) (s : Score)
      → Tells r c (maybe_broadcast_global_score fl s c).0 (maybe_broadcast_global_score fl s c).1
  unfolding maybe_broadcast_global_score
  broadcast-Tells fl s =
      let told : scores_to r (
            record_score_proposal ∷ to_workers c (λ q. score_update q s)
            ++ record_score_broadcast ∷ record_score_improved ∷ [])
          ≡ s ∷ [] =
        scores_to-append r (to_workers c (λ q. score_update q s))
          (record_score_broadcast ∷ record_score_improved ∷ [])
        ∙ ap (λ l. l ++ [])
            (collect-to_ranks r (score_for r) (λ q. score_update q s) (λ q. s) (λ q. refl)
                (c.world_size - 1) 1
              ∙ ap (λ b. if b then s ∷ [] else []) inside) in
      let none_told : nexts_to r (
            record_score_proposal ∷ to_workers c (λ q. score_update q s)
            ++ record_score_broadcast ∷ record_score_improved ∷ [])
          ≡ [] =
        nexts_to-append r (to_workers c (λ q. score_update q s))
          (record_score_broadcast ∷ record_score_improved ∷ [])
        ∙ ap (λ l. l ++ [])
            (collect-to_no_ranks (next_for r) (λ q. score_update q s) (λ q. refl) (c.world_size - 1)
              1) in
      elim (Bool-cases (should_update fl c.goal c.global_score s)) [
        | inl better ↦ rw better (
          ap (λ l. c.score_updates_sent + length l) (sym told),
          ap (last c.global_score) (sym told),
          omega (arith, ap length none_told),
          refl,
          refl,
        )
        | inr worse ↦ rw worse (omega arith, refl, omega arith, refl, refl)
      ]

  pub termination_tells :
      endings_to r (notify_termination c)
      ≡ (c.score_updates_sent, count_at c.next_processes_sent r) ∷ []
  unfolding notify_termination
  termination_tells =
      collect-to_ranks r (ending_for r)
        (λ q. termination_notice q c.score_updates_sent (count_at c.next_processes_sent q))
        (λ q. (c.score_updates_sent, count_at c.next_processes_sent q)) (λ q. refl)
        (c.world_size - 1) 1
      ∙ ap (λ b. if b then (c.score_updates_sent, count_at c.next_processes_sent r) ∷ [] else [])
          inside

pub handle-Tells :
    (r : ℕ) (fl : Floats) (m : Message) (c : Center)
    → 0 < r
    → r < c.world_size
    → length c.next_processes_sent ≡ c.world_size
    → Holds (Tells r c) (handle fl m c)
unfolding handle
handle-Tells r fl (running_state src) c low high size = running-Tells r src c (omega arith)
handle-Tells r fl (available_state offset src) c low high size =
    available-Tells r offset src c (omega arith)
handle-Tells r fl (score_proposal src s) c low high size = broadcast-Tells r c low high fl s
handle-Tells r fl (task_received src) c low high size =
    elim (process_task_received_ack c.termination) as (λ o. Holds (Tells r c) (acknowledged c o)) [
      | none ↦ tt
      | some t ↦ silent r c [] refl refl
    ]
handle-Tells r fl other c low high size = silent r c [] refl refl
