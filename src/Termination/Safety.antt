-- ===== src/Termination/Safety.antt =====
-- The detection is safe, and it does not get stuck.
use gempba.Base.{
  ℕ, zero, suc, ◌<◌, ◌≡◌, refl, ◌≢◌, ◌⊎◌, inl, inr, true, false, List, [], ◌∷◌, ◌++◌, none, some,
  arith, All, update, update_self, subst, fun_ext, Option-cases, Bool-cases,
}
use gempba.Termination.Detector.{Detector, on_task_received, is_quiescent}
use gempba.Termination.Handlers.{
  Msg, task, ack, receive_task, release_parent_if_passive, accepts_termination,
}
use gempba.Termination.Network.{
  Net, start, post, set_busy, Step, send, receive, finish, worker_ack, center_ack, Reach, here,
  next,
}
use gempba.Termination.Owing.{owed, owed_all, children_pos}
use gempba.Termination.Invariant.{IsAddressed, Inv, start-Inv}
use gempba.Termination.Moves.{
  send-Inv, receive_engaged-Inv, receive_fresh-Inv, ack-Inv, rest-Inv, release-Inv, ends,
}

-- The two branches of `on_task_received`.
engaged_receive :
    (k i : ℕ) (d : Detector)
    → (d.is_root ≡ true) ⊎ (d.parent ≢ none)
    → receive_task k d i ≡ (d, ack k i ∷ [])
unfolding receive_task on_task_received
engaged_receive k i d (inl e) = ground arith
engaged_receive k i d (inr e) = ground arith

fresh_receive :
    (k i : ℕ) (d : Detector)
    → d.is_root ≡ false
    → d.parent ≡ none
    → receive_task k d i ≡ (record d { parent = some i }, [])
unfolding receive_task on_task_received
fresh_receive k i d r e = ground arith

update-update :
    (f : ℕ → Detector) (k : ℕ) (a b : Detector) → update (update f k a) k b ≡ update f k b
update-update f k a b = fun_ext (λ j. ground arith)

-- Some stamp keeps the invariant.
abbrev pub Good : ℕ → Net → Type 0
Good n s = (stamp : ℕ → ℕ) × Inv n stamp s

release_after :
    (n : ℕ) (st : ℕ → ℕ) (s : Net) (k : ℕ) (d : Detector)
    → Inv n st (post (post s k (d, [])) k (release_parent_if_passive k (update s.det k d k)))
    → Inv n st (post s k (release_parent_if_passive k d))
release_after n st s k d h =
    subst (λ f. Inv n st (record (post s k (release_parent_if_passive k d)) { det = f }))
      (update-update s.det k d (release_parent_if_passive k d).0)
      (subst (λ e. Inv n st (post (post s k (d, [])) k (release_parent_if_passive k e)))
        (update_self s.det k d) h)

receive-Good :
    (n : ℕ) {s : Net} (i k : ℕ) (xs ys : List Msg)
    → s.msgs ≡ xs ++ task i k ∷ ys
    → Good n s
    → Good n (set_busy (post (record s { msgs = xs ++ ys }) k (receive_task k (s.det k) i)) k true)
receive-Good n {s} i k xs ys e (st, v) = elim (Bool-cases (s.det k).is_root) [
  | inl root ↦
      rw (engaged_receive k i (s.det k) (inl root))
        (st, receive_engaged-Inv n st s v i k xs ys e (λ z. absurd (ground (arith, v.roots k))))
  | inr worker ↦ elim (Option-cases (s.det k).parent) [
    | inl free ↦
        rw (fresh_receive k i (s.det k) worker free)
          (_, receive_fresh-Inv n st s v i k xs ys e (ground (arith, v.roots k)) free)
    | inr (p, q) ↦
        rw (engaged_receive k i (s.det k) (inr (λ r. cc)))
          (st, receive_engaged-Inv n st s v i k xs ys e (λ _ r. cc))
  ]
]

step-Good : (n : ℕ) {s t : Net} → Step n s t → Good n s → Good n t
step-Good n {s} (send i k hi hk ne b) (st, v) = (st, send-Inv n st s v i k hi hk ne b)
step-Good n {s} (receive i k xs ys e) g = receive-Good n i k xs ys e g
step-Good n {s} (finish k hk b) (st, v) = (
  st,
  release-Inv n st (set_busy s k false) (rest-Inv n st s v k) k hk (update_self s.busy k false),
)
step-Good n {s} (worker_ack j k xs ys d e z b r) (st, v) =
    let t = post (record s { msgs = xs ++ ys }) k (d, []) in
    (
      st,
      release_after n st (record s { msgs = xs ++ ys }) k d
          (release-Inv n st t (ack-Inv n st s v j k xs ys d e r) k
            (ends n st s v xs (ack j k) ys e).0.1 b),
    )
step-Good n {s} (center_ack j xs ys d e r) (st, v) = (st, ack-Inv n st s v j 0 xs ys d e r)

pub Reach-Good : (n : ℕ) {s : Net} → Reach n start s → Good n s
Reach-Good n here = (λ _. 0, start-Inv n)
Reach-Good n (next r st) = step-Good n st (Reach-Good n r)

-- Messages that nobody is owed are none.
no_messages :
    (n : ℕ) (ms : List Msg)
    → All (IsAddressed n) ms
    → ((i : ℕ) → i < n → owed_all i ms ≡ 0)
    → ms ≡ []
unfolding owed_all owed
no_messages n [] a h = refl
no_messages n (task i k ∷ ms) a h = absurd (ground (arith, h i a.0.0))
no_messages n (ack j k ∷ ms) a h = absurd (ground (arith, h k a.0.1))

module _ (n : ℕ) (st : ℕ → ℕ) (s : Net) (v : Inv n st s) (done : (s.det 0).deficit ≡ 0) where
  no_parent : (m j i : ℕ) → st j < m → j < n → (s.det j).parent ≡ some i → ⊥
  no_parent zero j i h hj e = elim h [ ]
  no_parent (suc m) j i h hj e =
      let (hi, lt) = v.older j i hj e in
      elim (Option-cases (s.det i).parent) [
        | inl free ↦ ground (arith, v.owes i hi, children_pos n s.det j i hj e, v.idle i hi)
        | inr (p, q) ↦ no_parent m i p (omega arith) hi q
      ]

  parent_none : (j : ℕ) → j < n → (s.det j).parent ≡ none
  parent_none j hj = elim (Option-cases (s.det j).parent) [
    | inl free ↦ free
    | inr (p, q) ↦ absurd (no_parent (suc (st j)) j p (omega arith) hj q)
  ]

  all_zero : (j : ℕ) → j < n → (s.det j).deficit ≡ 0
  all_zero zero hj = done
  all_zero (suc j) hj = (v.idle (suc j) hj (omega arith) (parent_none (suc j) hj)).0

  pub nothing_sent : s.msgs ≡ []
  nothing_sent =
      no_messages n s.msgs v.addressed (λ i hi. omega (arith, v.owes i hi, all_zero i hi))

  pub passive_worker : (j : ℕ) → j < n → j ≢ 0 → s.busy j ≡ false
  passive_worker j hj z = (v.idle j hj z (parent_none j hj)).1

  pub quiescent : (j : ℕ) → j < n → is_quiescent (s.det j) ≡ true
  unfolding is_quiescent
  quiescent j hj = ground (arith, all_zero j hj, parent_none j hj)

  pub accepted :
      (j : ℕ) → j < n → j ≢ 0 → accepts_termination (s.det j) (s.busy j) (s.busy j) ≡ true
  unfolding accepts_termination
  accepted j hj z = rw (quiescent j hj, passive_worker j hj z)

-- Safety of the detection: in every state that the computation can reach, once the center's deficit
-- is 0, no message is on its way, every rank of the world is quiescent, no worker has work, and so no
-- worker raises the exception of `process_termination` at the TERMINATION message.
pub termination_safe :
    (n : ℕ) (s : Net)
    → Reach n start s
    → (s.det 0).deficit ≡ 0
    → (s.msgs ≡ [])
      × ((j : ℕ) → j < n → is_quiescent (s.det j) ≡ true)
      × ((j : ℕ) → j < n → j ≢ 0 → s.busy j ≡ false)
      × ((j : ℕ) → j < n → j ≢ 0 → accepts_termination (s.det j) (s.busy j) (s.busy j) ≡ true)
termination_safe n s r done =
    let (st, v) = Reach-Good n r in
    (
      nothing_sent n st s v done,
      quiescent n st s v done,
      passive_worker n st s v done,
      accepted n st s v done,
    )
