-- ===== src/Termination/Progress.antt =====
-- The detection does not get stuck: a computation that can do no step has been detected.
use gempba.Base.{
  ℕ, zero, suc, ◌+◌, ◌-◌, ◌<◌, ◌≤◌, ◌≡◌, refl, ◌≢◌, ◌==◌, inl, inr, false, List, [], ◌∷◌, none,
  some, arith, ap, subst, All, Bool-cases,
}
use gempba.Termination.Detector.{
  Detector, init, on_task_received, on_passive, on_ack_received, on_task_sent,
}
use gempba.Termination.Handlers.{
  Msg, task, ack, receive_task, release_parent_if_passive, process_task_received_ack, send_to,
}
use gempba.Termination.Network.{
  Net, start, Step, send, receive, finish, worker_ack, center_ack, Reach, here, next,
}
use gempba.Termination.Owing.{owed, owed_all, children, child_of_children}
use gempba.Termination.Invariant.{IsAddressed, Inv}
use gempba.Termination.Safety.{Reach-Good}

-- A worker with no work and nothing owed to it has given its parent back.
abbrev IsFreed : Net → ℕ → Type 0
IsFreed s j = s.busy j ≡ false → (s.det j).deficit ≡ 0 → (s.det j).parent ≡ none

step-IsFreed :
    {n : ℕ} {s t : Net} → Step n s t → (j : ℕ) → (j ≢ 0 → IsFreed s j) → j ≢ 0 → IsFreed t j
unfolding send_to on_task_sent receive_task on_task_received release_parent_if_passive on_passive
step-IsFreed (send i k hi hk ne b) j f z = ground (arith, f z)
step-IsFreed (receive i k xs ys e) j f z = ground (arith, f z)
step-IsFreed (finish k hk b) j f z = ground (arith, f z)
step-IsFreed (worker_ack i k xs ys d e z' b r) j f z = ground (arith, f z)
step-IsFreed (center_ack i xs ys d e r) j f z = ground (arith, f z)

Reach-IsFreed : {n : ℕ} {s : Net} → Reach n start s → (j : ℕ) → j ≢ 0 → IsFreed s j
unfolding start init
Reach-IsFreed here j z = λ b d. refl
Reach-IsFreed (next r st) j z = step-IsFreed st j (Reach-IsFreed r j) z

-- A bound on the stamps of the ranks of the world.
highest : (ℕ → ℕ) → ℕ → ℕ
highest st zero = 0
highest st (suc n) = st n + highest st n

highest_bound : (st : ℕ → ℕ) (n j : ℕ) → j < n → st j ≤ highest st n
unfolding highest
highest_bound st zero j h = elim h [ ]
highest_bound st (suc n) j h = ground (arith, highest_bound st n j)

module _ (n : ℕ) (st : ℕ → ℕ) (s : Net) (v : Inv n st s) (pos : 0 < n)
    (freed : (j : ℕ) → j ≢ 0 → IsFreed s j) (stuck : (t : Net) → Step n s t → ⊥) where
  all_rest : (j : ℕ) → j < n → s.busy j ≡ false
  all_rest j hj = elim (Bool-cases (s.busy j)) [
    | inl b ↦ absurd (stuck _ (finish j hj b))
    | inr b ↦ b
  ]

  expected_ack :
      (k : ℕ)
      → 0 < (s.det k).deficit
      → (d : Detector) × (process_task_received_ack (s.det k) ≡ some d)
  unfolding process_task_received_ack on_ack_received
  expected_ack k h = (record (s.det k) { deficit = (s.det k).deficit - 1 }, ground arith)

  ack_owed : (i k : ℕ) (ms : List Msg) → k < n → s.msgs ≡ ack i k ∷ ms → 0 < (s.det k).deficit
  unfolding owed_all owed
  ack_owed i k ms hk e = ground (arith, v.owes k hk, ap (owed_all k) e)

  no_message : (m : Msg) (ms : List Msg) → s.msgs ≡ m ∷ ms → ⊥
  no_message (task i k) ms e = stuck _ (receive i k [] ms e)
  no_message (ack i zero) ms e =
      let (d, r) = expected_ack zero (ack_owed i zero ms pos e) in
      stuck _ (center_ack i [] ms d e r)
  no_message (ack i (suc k)) ms e =
      let hk : suc k < n = (subst (All (IsAddressed n)) e v.addressed).0.1 in
      let (d, r) = expected_ack (suc k) (ack_owed i (suc k) ms hk e) in
      stuck _ (worker_ack i (suc k) [] ms d e (omega arith) (all_rest (suc k) hk) r)

  no_messages : (ms : List Msg) → s.msgs ≡ ms → ms ≡ []
  no_messages [] e = refl
  no_messages (m ∷ ms) e = absurd (no_message m ms e)

  -- Down the children the stamps would grow for ever.
  childless : (m j i : ℕ) → highest st n - st j < m → j < n → (s.det j).parent ≡ some i → ⊥
  unfolding owed_all
  childless zero j i h hj e = elim h [ ]
  childless (suc m) j i h hj e =
      let some_child : 0 < children n s.det j = ground (
        arith,
        v.owes j hj,
        freed j,
        all_rest j hj,
        v.root_parent,
        ap (owed_all j) (no_messages s.msgs refl),
      ) in
      let (c, hc, p) = child_of_children n s.det j some_child in
      childless m c j
        (omega (arith, (v.older c j hc p).1, highest_bound st n c hc, highest_bound st n j hj)) hc p

  pub no_debt : (s.det 0).deficit ≡ 0
  unfolding owed_all
  no_debt = elim (Bool-cases ((s.det 0).deficit == 0)) [
    | inl e ↦ ground arith
    | inr e ↦
        let some_child : 0 < children n s.det 0 =
          ground (arith, v.owes 0 pos, ap (owed_all 0) (no_messages s.msgs refl)) in
        let (c, hc, p) = child_of_children n s.det 0 some_child in
        absurd (childless (suc (highest st n - st c)) c 0 (omega arith) hc p)
  ]

-- Progress of the detection: in every state that the computation can reach and from which no rank can do
-- any step, no rank has work, and the center's deficit is 0, so the center has found the termination.
pub stuck_is_detected :
    (n : ℕ) (s : Net)
    → 0 < n
    → Reach n start s
    → ((t : Net) → Step n s t → ⊥)
    → ((s.det 0).deficit ≡ 0) × ((j : ℕ) → j < n → s.busy j ≡ false)
stuck_is_detected n s pos r stuck =
    let (st, v) = Reach-Good n r in
    (no_debt n st s v pos (Reach-IsFreed r) stuck, all_rest n st s v pos (Reach-IsFreed r) stuck)
