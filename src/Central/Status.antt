-- ===== src/Central/Status.antt =====
-- The messages to a worker, over the whole run of the center.
use gempba.Base.{
  last, ℕ, ◌+◌, ◌*◌, ◌<◌, ◌≡◌, refl, sym, ◌∙◌, ap, subst, if◌then◌else◌, Bool, true, false,
  Bool-cases, List, [], ◌∷◌, ◌++◌, Option, none, some, length, ltb, ◌&&◌, ◌||◌, ◌⊎◌, inl, inr,
  arith,
}
use mathlib.Core.List.{append_assoc}
use gempba.Score.Defs.{Score, Floats}
use gempba.Termination.Detector.{on_task_received}
use gempba.Termination.Handlers.{process_task_received_ack}
use gempba.Central.Tasks.{Bundle, push}
use gempba.Central.Center.{
  Center, Out, ack_to, record_recv, maybe_broadcast_global_score, process_task_for_center,
  process_running, process_available, monitor_and_notify_center_status, clear_buffer,
  tasks_per_process, max_memory_mb,
}
use gempba.Central.Loop.{
  Message, running_state, available_state, score_proposal, task_for_center, task_received, other,
  handle, tidy, Holds, acknowledged,
}
use gempba.Central.Invariant.{Counted, score-Unchanged}
use gempba.Central.Notices.{scores_to, fullness_to, monitor_tells, broadcast_tells}
use gempba.Central.Told.{
  Told, Agrees, Repeats, Told-append, last-fullness, silent, clear-Tells, monitor-Tells,
  broadcast-Tells, clear-queue, clear-status, clear-fullness, clear-world,
}

last_true : (xs : List Bool) → last false xs ≡ true → last true xs ≡ true
last_true [] e = cc
last_true (x ∷ xs) e = e

-- A center that is not said to be full, and is, says so.
monitor_full :
    (memory now : ℕ) (c : Center)
    → c.center_last_full_status ≡ false
    → tasks_per_process * c.world_size < length c.queue
    → (monitor_and_notify_center_status memory now c).0.center_last_full_status ≡ true
unfolding monitor_and_notify_center_status
monitor_full memory now c free over =
    let test : (ltb max_memory_mb memory || ltb (tasks_per_process * c.world_size) (length c.queue))
        ≡ true =
      ground arith in
    rw (free, test) refl

abbrev pub State : Score → ℕ → Center → List Out → Type 0
State s r c outs =
    Told s r c outs × (Agrees r c outs ⊎ Repeats (2 * tasks_per_process * c.world_size) r c outs)

task_world :
    (src : ℕ) (b : Bundle) (now : ℕ) (c : Center)
    → (process_task_for_center src b now c).0.world_size ≡ c.world_size
unfolding process_task_for_center
task_world src b now c = refl

module _ (s : Score) (r : ℕ) (low : 0 < r) where
  pub tidy_lem :
      (memory now : ℕ) (c : Center) (outs : List Out)
      → r < c.world_size
      → Counted c
      → State s r c outs
      → Told s r (tidy memory now c).0 (outs ++ (tidy memory now c).1)
        × Agrees r (tidy memory now c).0 (outs ++ (tidy memory now c).1)
  unfolding tidy
  tidy_lem memory now c outs high v (told, status) =
      let c1 = (clear_buffer c).0 in
      let o1 = (clear_buffer c).1 in
      let o2 = (monitor_and_notify_center_status memory now c1).1 in
      let c2 = (monitor_and_notify_center_status memory now c1).0 in
      let high1 : r < c1.world_size = omega (arith, clear-world r c low high) in
      let told1 = Told-append s r c c1 outs o1 told (clear-Tells r c low high) in
      let told2 =
        Told-append s r c1 c2 (outs ++ o1) o2 told1 (monitor-Tells r c1 low high1 memory now) in
      let says = (monitor_tells r c1 low high1 memory now).4 in
      let before : last false (fullness_to r (outs ++ o1)) ≡ last false (fullness_to r outs) =
        last-fullness r outs o1
        ∙ ap (last (last false (fullness_to r outs))) (clear-fullness r c low high) in
      let after : last false (fullness_to r ((outs ++ o1) ++ o2))
          ≡ last (last false (fullness_to r outs)) (fullness_to r o2) =
        last-fullness r (outs ++ o1) o2 ∙ ap (λ b. last b (fullness_to r o2)) before in
      let agrees : Agrees r c2 ((outs ++ o1) ++ o2) = elim status [
        | inl same ↦
            after
            ∙ ap (λ b. last b (fullness_to r o2)) (same ∙ sym (clear-status r c low high))
            ∙ sym says
        | inr (was_full, free, many) ↦
            let still_free = clear-status r c low high ∙ free in
            let left = clear-queue r c low high v.states in
            let full : c2.center_last_full_status ≡ true =
              monitor_full memory now c1 still_free
                (omega (arith, left, many, high, low, clear-world r c low high)) in
            after
            ∙ ap (λ b. last b (fullness_to r o2)) was_full
            ∙ last_true (fullness_to r o2)
                (ap (λ b. last b (fullness_to r o2)) (sym still_free) ∙ sym says ∙ full)
            ∙ sym full
      ] in
      (
        subst (Told s r c2) (append_assoc outs o1 o2) told2,
        subst (Agrees r c2) (append_assoc outs o1 o2) agrees,
      )

  quiet_ack :
      (a : Option ℕ) (src : ℕ) (b : Bundle)
      → (scores_to r (ack_to a ++ record_recv src b ∷ []) ≡ [])
        × (fullness_to r (ack_to a ++ record_recv src b ∷ []) ≡ [])
  quiet_ack none src b = (refl, refl)
  quiet_ack (some q) src b = (refl, refl)

  -- A call that leaves the status and the queue alone.
  keeps :
      (c d : Center) (outs more : List Out)
      → Told s r d (outs ++ more)
      → Agrees r c outs
      → fullness_to r more ≡ []
      → d.center_last_full_status ≡ c.center_last_full_status
      → State s r d (outs ++ more)
  keeps c d outs more told agrees quiet same = (
    told,
    inl (
        last-fullness r outs more
        ∙ ap (last (last false (fullness_to r outs))) quiet
        ∙ agrees
        ∙ sym same),
  )

  task_lem :
      (src : ℕ) (b : Bundle) (now : ℕ) (c : Center) (outs : List Out)
      → Told s r c outs
      → Agrees r c outs
      → State s r
          (process_task_for_center src b now c).0
          (outs ++ (process_task_for_center src b now c).1)
  unfolding process_task_for_center
  task_lem src b now c outs told agrees =
      let quiet = quiet_ack (on_task_received c.termination src).1 src b in
      let more = ack_to (on_task_received c.termination src).1 ++ record_recv src b ∷ [] in
      let d = (process_task_for_center src b now c).0 in
      let said =
        last-fullness r outs more ∙ ap (last (last false (fullness_to r outs))) quiet.1 ∙ agrees in
      let told' =
        Told-append s r c d outs more told (silent r c d more quiet.0 quiet.1 refl refl refl) in
      elim (Bool-cases (
        ltb (2 * tasks_per_process * c.world_size) (length (push b c.queue))
        && ltb (c.time_centerfull_sent + 1000000) now)) [
          | inr fine ↦ (
            told',
            inl (said ∙ ap (λ x. if x then false else c.center_last_full_status) (sym fine)),
          )
          | inl again ↦ elim (Bool-cases c.center_last_full_status) [
            | inl full ↦ (
              told',
              inr (
                said ∙ full,
                ap (λ x. if x then false else c.center_last_full_status) again,
                ground arith,
              ),
            )
            | inr free ↦ (
              told',
              inl (
                  said
                  ∙ free
                  ∙ ap (λ x. if x then false else c.center_last_full_status) (sym again)),
            )
          ]
        ]

  pub handle_lem :
      (fl : Floats) (now : ℕ) (m : Message) (c : Center) (outs : List Out)
      → r < c.world_size
      → Told s r c outs
      → Agrees r c outs
      → Holds
          (λ d more. State s r d (outs ++ more) × (d.world_size ≡ c.world_size))
          (handle fl now m c)
  unfolding handle process_running process_available
  handle_lem fl now (running_state src) c outs high told agrees =
      let (d, more) = process_running src c in
      (
        keeps c d outs more
            (Told-append s r c d outs more told (silent r c d more refl refl refl refl refl)) agrees
            refl refl,
        refl,
      )
  handle_lem fl now (available_state src) c outs high told agrees =
      let (d, more) = process_available src c in
      (
        keeps c d outs more
            (Told-append s r c d outs more told (silent r c d more refl refl refl refl refl)) agrees
            refl refl,
        refl,
      )
  handle_lem fl now (score_proposal src new) c outs high told agrees =
      let (d, more) = maybe_broadcast_global_score fl new c in
      let says = broadcast_tells r c low high fl new in
      (
        keeps c d outs more
            (Told-append s r c d outs more told (broadcast-Tells r c low high fl new)) agrees says.0
            says.2,
        (score-Unchanged fl new c).world,
      )
  handle_lem fl now (task_for_center src b) c outs high told agrees =
      (task_lem src b now c outs told agrees, task_world src b now c)
  handle_lem fl now (task_received src) c outs high told agrees =
      elim (process_task_received_ack c.termination)
        as (λ o.
          Holds (λ d more. State s r d (outs ++ more) × (d.world_size ≡ c.world_size))
            (acknowledged c o)) [
              | none ↦ tt
              | some t ↦
                  let d = record c { termination = t } in
                  (
                    keeps c d outs []
                        (Told-append s r c d outs [] told
                          (silent r c d [] refl refl refl refl refl))
                        agrees refl refl,
                    refl,
                  )
            ]
  handle_lem fl now other c outs high told agrees = (
    keeps c c outs [] (Told-append s r c c outs [] told (silent r c c [] refl refl refl refl refl))
        agrees refl refl,
    refl,
  )
