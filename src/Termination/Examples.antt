-- ===== src/Termination/Examples.antt =====
-- A computation of two ranks: the center hands the seed to rank 1, which does it and gives it back.
use gempba.Base.{ℕ, ◌<◌, ◌≡◌, refl, true, false, List, [], ◌∷◌, ◌++◌, arith}
use gempba.Termination.Detector.{init, on_task_sent, on_task_received, on_passive, on_ack_received}
use gempba.Termination.Handlers.{
  Msg, task, ack, receive_task, release_parent_if_passive, process_task_received_ack, send_to,
}
use gempba.Termination.Network.{
  Net, start, post, set_busy, Step, send, receive, finish, worker_ack, center_ack, Reach, here,
  next,
}
use gempba.Termination.Safety.{termination_safe}
use gempba.Termination.Progress.{stuck_is_detected}

abbrev seeded : Net
seeded = post start 0 (send_to 0 1 (start.det 0))

abbrev idle_center : Net
idle_center = set_busy (post seeded 0 (release_parent_if_passive 0 (seeded.det 0))) 0 false

abbrev without : Net → List Msg → Net
without s ms = record s { msgs = ms }

abbrev working : Net
working = set_busy (post (without idle_center []) 1 (receive_task 1 (idle_center.det 1) 0)) 1 true

abbrev worked : Net
worked = set_busy (post working 1 (release_parent_if_passive 1 (working.det 1))) 1 false

abbrev detected : Net
detected = post (without worked []) 0 (init true, [])

detected-Reach : Reach 2 start detected
unfolding start init send_to on_task_sent receive_task on_task_received release_parent_if_passive
    on_passive process_task_received_ack on_ack_received
detected-Reach =
    next
      (next
        (next
          (next (next here (send 0 1 (omega arith) (omega arith) (omega arith) refl))
            (finish 0 (omega arith) refl))
          (receive 0 1 [] [] refl))
        (finish 1 (omega arith) refl))
      (center_ack 1 [] [] (init true) refl refl)

termination_safe_example : detected.msgs ≡ []
unfolding init
termination_safe_example = (termination_safe 2 detected detected-Reach refl).0

no_split : (xs : List Msg) (m : Msg) (ys : List Msg) → [] ≡ xs ++ m ∷ ys → ⊥
no_split [] m ys e = cc
no_split (x ∷ xs) m ys e = cc

detected_msgs : detected.msgs ≡ []
unfolding init
detected_msgs = refl

detected_busy : (j : ℕ) → j < 2 → detected.busy j ≡ true → ⊥
unfolding start
detected_busy j h b = ground arith

detected_stuck : (t : Net) → Step 2 detected t → ⊥
detected_stuck t (send i k hi hk ne b) = detected_busy i hi b
detected_stuck t (receive i k xs ys e) = no_split xs (task i k) ys e
detected_stuck t (finish k hk b) = detected_busy k hk b
detected_stuck t (worker_ack j k xs ys d e z b r) = no_split xs (ack j k) ys e
detected_stuck t (center_ack j xs ys d e r) = no_split xs (ack j 0) ys e

stuck_is_detected_example :
    ((detected.det 0).deficit ≡ 0) × ((j : ℕ) → j < 2 → detected.busy j ≡ false)
stuck_is_detected_example = stuck_is_detected 2 detected (omega arith) detected-Reach detected_stuck
