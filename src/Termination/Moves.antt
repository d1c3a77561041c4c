-- ===== src/Termination/Moves.antt =====
-- Each step of the computation keeps the invariant.
use gempba.Base.{
  ℕ, suc, ◌+◌, ◌<◌, ◌≡◌, ap, ◌∙◌, ◌≢◌, true, false, List, [], ◌∷◌, ◌++◌, none, some, arith, update,
  All, All-append, All-split, Option, refl, subst,
}
use gempba.Termination.Detector.{Detector, on_task_sent, on_ack_received, on_passive}
use gempba.Termination.Handlers.{
  Msg, task, ack, send_task_ack, release_parent_if_passive, process_task_received_ack, send_to,
}
use gempba.Termination.Network.{Net, post, set_busy}
use gempba.Termination.Owing.{owed, owed_all, owed_all-split, children_pos, owes_update}
use gempba.Termination.Invariant.{IsAddressed, Inv}

on_passive_parent : (d : Detector) (p : ℕ) → (on_passive d).1 ≡ some p → d.parent ≡ some p
unfolding on_passive
on_passive_parent d p e = ground arith

send_task_ack-All :
    (n k : ℕ)
    → k < n
    → (o : Option ℕ) → ((p : ℕ) → o ≡ some p → p < n)
    → All (IsAddressed n) (send_task_ack k o)
unfolding send_task_ack
send_task_ack-All n k hk none h = tt
send_task_ack-All n k hk (some p) h = ((hk, h p refl), tt)

module _ (n : ℕ) (stamp : ℕ → ℕ) (s : Net) (inv : Inv n stamp s) where
  -- What a message was owed to, and its ends, when it is taken out of the network.
  taken :
      (j : ℕ) (xs : List Msg) (m : Msg) (ys : List Msg)
      → s.msgs ≡ xs ++ m ∷ ys
      → owed_all j s.msgs ≡ owed j m + owed_all j (xs ++ ys)
  taken j xs m ys e = ap (owed_all j) e ∙ owed_all-split j xs m ys

  pub ends :
      (xs : List Msg) (m : Msg) (ys : List Msg)
      → s.msgs ≡ xs ++ m ∷ ys
      → IsAddressed n m × All (IsAddressed n) (xs ++ ys)
  ends xs m ys e = All-split (IsAddressed n) xs m ys (subst (All (IsAddressed n)) e inv.addressed)

  pub send-Inv :
      (i k : ℕ)
      → i < n
      → k < n
      → k ≢ i
      → s.busy i ≡ true
      → Inv n stamp (post s i (send_to i k (s.det i)))
  unfolding send_to on_task_sent owed_all owed
  send-Inv i k hi hk ne b = record {
    owes = λ j hj.
        owes_update n s.det i _ s.msgs (task i k ∷ s.msgs) j hi (inv.owes j hj) (ground arith);
    idle = λ j h z e. ground (arith, inv.idle j h z);
    roots = λ j. ground (arith, inv.roots j, inv.roots i);
    root_parent = ground (arith, inv.root_parent);
    older = λ j p h e. ground (arith, inv.older j p h);
    addressed = ((hi, hk), inv.addressed);
  }

  -- A task that reaches a rank with a parent, or the center, is acknowledged at once.
  pub receive_engaged-Inv :
      (i k : ℕ) (xs ys : List Msg)
      → s.msgs ≡ xs ++ task i k ∷ ys
      → (k ≢ 0 → (s.det k).parent ≢ none)
      → Inv n stamp
          (set_busy (post (record s { msgs = xs ++ ys }) k (s.det k, ack k i ∷ [])) k true)
  unfolding owed_all owed
  receive_engaged-Inv i k xs ys e engaged =
      let (to, rest) = ends xs (task i k) ys e in
      record {
        owes = λ j hj.
            owes_update n s.det k _ s.msgs (ack k i ∷ xs ++ ys) j to.1 (inv.owes j hj)
              (ground (arith, taken j xs (task i k) ys e));
        idle = λ j h z p. ground (arith, inv.idle j h z);
        roots = λ j. ground (arith, inv.roots j, inv.roots k);
        root_parent = ground (arith, inv.root_parent);
        older = λ j p h q. ground (arith, inv.older j p h);
        addressed = ((to.1, to.0), rest);
      }

  -- A task that reaches a worker with no parent makes its sender the parent.
  pub receive_fresh-Inv :
      (i k : ℕ) (xs ys : List Msg)
      → s.msgs ≡ xs ++ task i k ∷ ys
      → k ≢ 0
      → (s.det k).parent ≡ none
      → Inv n (update stamp k (suc (stamp i))) (
          set_busy
            (post (record s { msgs = xs ++ ys }) k (record (s.det k) { parent = some i }, []))
            k
            true)
  unfolding owed_all owed
  receive_fresh-Inv i k xs ys e z free =
      let (to, rest) = ends xs (task i k) ys e in
      record {
        owes = λ j hj.
            owes_update n s.det k _ s.msgs (xs ++ ys) j to.1 (inv.owes j hj)
              (ground (arith, taken j xs (task i k) ys e));
        idle = λ j h z p. ground (arith, inv.idle j h z);
        roots = λ j. ground (arith, inv.roots j, inv.roots k);
        root_parent = ground (arith, inv.root_parent);
        older = λ j p h q. ground (
          arith,
          inv.older j p h,
          children_pos n s.det j k h,
          inv.owes k to.1,
          inv.idle k to.1 z free,
          taken k xs (task i k) ys e,
        );
        addressed = rest;
      }

  -- An acknowledgement of a task that was sent.
  pub ack-Inv :
      (j k : ℕ) (xs ys : List Msg) (d : Detector)
      → s.msgs ≡ xs ++ ack j k ∷ ys
      → process_task_received_ack (s.det k) ≡ some d
      → Inv n stamp (post (record s { msgs = xs ++ ys }) k (d, []))
  unfolding owed_all owed process_task_received_ack on_ack_received
  ack-Inv j k xs ys d e r =
      let (to, rest) = ends xs (ack j k) ys e in
      record {
        owes = λ i hi.
            owes_update n s.det k _ s.msgs (xs ++ ys) i to.1 (inv.owes i hi)
              (ground (arith, taken i xs (ack j k) ys e));
        idle = λ i h z p. ground (arith, inv.idle i h z);
        roots = λ i. ground (arith, inv.roots i, inv.roots k);
        root_parent = ground (arith, inv.root_parent);
        older = λ i p h q. ground (arith, inv.older i p h);
        addressed = rest;
      }

  pub rest-Inv : (k : ℕ) → Inv n stamp (set_busy s k false)
  rest-Inv k = record {
    owes = inv.owes;
    idle = λ j h z e. ground (arith, inv.idle j h z);
    roots = inv.roots;
    root_parent = inv.root_parent;
    older = inv.older;
    addressed = inv.addressed;
  }

  -- A passive rank gives its parent back as soon as nothing is owed to it.
  pub release-Inv :
      (k : ℕ)
      → k < n
      → s.busy k ≡ false
      → Inv n stamp (post s k (release_parent_if_passive k (s.det k)))
  unfolding owed_all owed release_parent_if_passive on_passive
  release-Inv k hk b = record {
    owes = λ j hj.
        owes_update n s.det k _ s.msgs (post s k (release_parent_if_passive k (s.det k))).msgs j hk
          (inv.owes j hj) (ground arith);
    idle = λ j h z e. ground (arith, inv.idle j h z);
    roots = λ j. ground (arith, inv.roots j, inv.roots k);
    root_parent = ground (arith, inv.root_parent);
    older = λ j p h e. ground (arith, inv.older j p h);
    addressed =
        All-append (IsAddressed n) (send_task_ack k (on_passive (s.det k)).1) s.msgs
          (send_task_ack-All n k hk _
            (λ p e. (inv.older k p hk (on_passive_parent (s.det k) p e)).0))
          inv.addressed;
  }
