-- ===== src/Central/Notices.antt =====
-- What a worker is sent on the two communicators that the center alone writes: the scores, and whether
-- the center is full.
use gempba.Base.{
  last, ℕ, ◌+◌, ◌-◌, ◌*◌, ◌<◌, ◌≡◌, refl, sym, ◌∙◌, ap, if◌then◌else◌, Bool, true, false,
  Bool-cases, List, [], ◌∷◌, ◌++◌, length, ◌==◌, leb, ltb, ◌&&◌, ◌||◌, inl, inr, arith,
}
use gempba.Base.Messages.{collect, collect-append, within, collect-to_ranks, collect-to_no_ranks}
use gempba.Score.Defs.{Score, Floats, should_update}
use gempba.Central.Tasks.{Bundle}
use gempba.Central.Center.{
  Center, Out, record_score_proposal, record_score_broadcast, record_score_improved, record_full,
  record_free, max_memory_mb, tasks_per_process, to_workers, hand_out, handed, score_update,
  center_is_full, center_is_free, maybe_broadcast_global_score, monitor_and_notify_center_status,
}

abbrev pub score_for : ℕ → Out → List Score
score_for r (score_update q s) = if q == r then s ∷ [] else []
score_for r _ = []

abbrev pub notice_for : ℕ → Out → List Bool
notice_for r (center_is_full q) = if q == r then true ∷ [] else []
notice_for r (center_is_free q) = if q == r then false ∷ [] else []
notice_for r _ = []

abbrev pub scores_to : ℕ → List Out → List Score
scores_to r outs = collect (score_for r) outs

abbrev pub fullness_to : ℕ → List Out → List Bool
fullness_to r outs = collect (notice_for r) outs

pub scores_to-append :
    (r : ℕ) (xs ys : List Out) → scores_to r (xs ++ ys) ≡ scores_to r xs ++ scores_to r ys
scores_to-append r = collect-append (score_for r)

pub fullness_to-append :
    (r : ℕ) (xs ys : List Out) → fullness_to r (xs ++ ys) ≡ fullness_to r xs ++ fullness_to r ys
fullness_to-append r = collect-append (notice_for r)

module _ (r : ℕ) where
  -- Tasks are none of these messages.
  pub hand_out-scores :
      (sent : List (ℕ × Bundle)) (c : Center) → scores_to r (hand_out sent c).1 ≡ []
  hand_out-scores [] c = refl
  hand_out-scores ((q, b) ∷ sent) c = hand_out-scores sent (handed c)

  pub hand_out-fullness :
      (sent : List (ℕ × Bundle)) (c : Center) → fullness_to r (hand_out sent c).1 ≡ []
  hand_out-fullness [] c = refl
  hand_out-fullness ((q, b) ∷ sent) c = hand_out-fullness sent (handed c)

module _ (r : ℕ) (c : Center) (low : 0 < r) (high : r < c.world_size) where
  inside : within r 1 (c.world_size - 1) ≡ true
  inside = ground arith

  told_score :
      (s : Score)
      → scores_to r (
          record_score_proposal ∷ to_workers c (λ q. score_update q s)
          ++ record_score_broadcast ∷ record_score_improved ∷ [])
        ≡ s ∷ []
  told_score s =
      scores_to-append r (to_workers c (λ q. score_update q s))
        (record_score_broadcast ∷ record_score_improved ∷ [])
      ∙ ap (λ l. l ++ [])
          (collect-to_ranks r (score_for r) (λ q. score_update q s) (λ q. s) (λ q. refl)
              (c.world_size - 1) 1
            ∙ ap (λ b. if b then s ∷ [] else []) inside)

  no_fullness_told :
      (s : Score)
      → fullness_to r (
          record_score_proposal ∷ to_workers c (λ q. score_update q s)
          ++ record_score_broadcast ∷ record_score_improved ∷ [])
        ≡ []
  no_fullness_told s =
      fullness_to-append r (to_workers c (λ q. score_update q s))
        (record_score_broadcast ∷ record_score_improved ∷ [])
      ∙ ap (λ l. l ++ [])
          (collect-to_no_ranks (notice_for r) (λ q. score_update q s) (λ q. refl) (c.world_size - 1)
            1)

  told_full : fullness_to r (to_workers c center_is_full ++ record_full ∷ []) ≡ true ∷ []
  told_full =
      fullness_to-append r (to_workers c center_is_full) (record_full ∷ [])
      ∙ ap (λ l. l ++ [])
          (collect-to_ranks r (notice_for r) center_is_full (λ q. true) (λ q. refl)
              (c.world_size - 1) 1
            ∙ ap (λ b. if b then true ∷ [] else []) inside)

  told_free : fullness_to r (to_workers c center_is_free ++ record_free ∷ []) ≡ false ∷ []
  told_free =
      fullness_to-append r (to_workers c center_is_free) (record_free ∷ [])
      ∙ ap (λ l. l ++ [])
          (collect-to_ranks r (notice_for r) center_is_free (λ q. false) (λ q. refl)
              (c.world_size - 1) 1
            ∙ ap (λ b. if b then false ∷ [] else []) inside)

  no_scores_full_told : scores_to r (to_workers c center_is_full ++ record_full ∷ []) ≡ []
  no_scores_full_told =
      scores_to-append r (to_workers c center_is_full) (record_full ∷ [])
      ∙ ap (λ l. l ++ [])
          (collect-to_no_ranks (score_for r) center_is_full (λ q. refl) (c.world_size - 1) 1)

  no_scores_free_told : scores_to r (to_workers c center_is_free ++ record_free ∷ []) ≡ []
  no_scores_free_told =
      scores_to-append r (to_workers c center_is_free) (record_free ∷ [])
      ∙ ap (λ l. l ++ [])
          (collect-to_no_ranks (score_for r) center_is_free (λ q. refl) (c.world_size - 1) 1)

  -- What one call tells a worker, and what it writes down.
  pub broadcast_tells :
      (fl : Floats) (s : Score)
      → let (d, outs) = maybe_broadcast_global_score fl s c in
        (fullness_to r outs ≡ [])
        × (d.fullness_notices_sent ≡ c.fullness_notices_sent)
        × (d.center_last_full_status ≡ c.center_last_full_status)
        × (d.score_updates_sent ≡ c.score_updates_sent + length (scores_to r outs))
        × (d.global_score ≡ last c.global_score (scores_to r outs))
  unfolding maybe_broadcast_global_score
  broadcast_tells fl s = elim (Bool-cases (should_update fl c.goal c.global_score s)) [
    | inl better ↦ rw better (
      no_fullness_told s,
      refl,
      refl,
      ap (λ l. c.score_updates_sent + length l) (sym (told_score s)),
      ap (last c.global_score) (sym (told_score s)),
    )
    | inr worse ↦ rw worse (refl, refl, refl, omega arith, refl)
  ]

  pub monitor_tells :
      (memory now : ℕ)
      → let (d, outs) = monitor_and_notify_center_status memory now c in
        (scores_to r outs ≡ [])
        × (d.score_updates_sent ≡ c.score_updates_sent)
        × (d.global_score ≡ c.global_score)
        × (d.fullness_notices_sent ≡ c.fullness_notices_sent + length (fullness_to r outs))
        × (d.center_last_full_status ≡ last c.center_last_full_status (fullness_to r outs))
  unfolding monitor_and_notify_center_status
  monitor_tells memory now = elim (Bool-cases c.center_last_full_status) [
    | inl full ↦ elim (Bool-cases (leb memory 9216 && ltb (length c.queue) (800 * c.world_size))) [
      | inl room ↦
          rw (full, room)
            (
              no_scores_free_told,
              refl,
              refl,
              ap (λ l. c.fullness_notices_sent + length l) (sym told_free),
              ap (last true) (sym told_free),
            )
      | inr none_left ↦ rw (full, none_left) (refl, refl, refl, omega arith, refl)
    ]
    | inr free ↦
        elim (Bool-cases
          (ltb max_memory_mb memory || ltb (tasks_per_process * c.world_size) (length c.queue))) [
            | inl over ↦
                rw (free, over)
                  (
                    no_scores_full_told,
                    refl,
                    refl,
                    ap (λ l. c.fullness_notices_sent + length l) (sym told_full),
                    ap (last false) (sym told_full),
                  )
            | inr room ↦ rw (free, room) (refl, refl, refl, omega arith, refl)
          ]
  ]
