-- ===== src/Node/Submission.antt =====
-- How a submission to the work stealing balancer ends, on each of its ways.
use gempba.Base.{
  ℕ, ◌+◌, ◌≡◌, ◌≢◌, inl, inr, ◌∙◌, ◌⊎◌, Bool, true, false, not, [], ◌∷◌, Option, none, some, arith,
  if◌then◌else◌, Bool-cases,
}
use gempba.Node.Life.{
  Node, invoked, submitted, sent, unused, forwarded, pushed, discarded, sent_to_another_process,
  lazy, uninitialized, should_branch, run, delegate_locally, delegate_remotely, serialize, prune,
  set_state, is_consumed,
}
use gempba.Node.WorkStealing.{
  Balancer, Env, Outcome, is_thread_pool_full, push_node, send, forward, try_local_submit,
  try_remote_submit, send_remotely, one_request, or_locally,
}

-- An unused node whose arguments are there, or are asked for with no answer remembered yet.
pub record IsReady {A P : Type 0} (n : Node A P) : Type 0 where
  pub fresh : n.state ≡ unused
  pub given : n.flag ≢ uninitialized
  pub asked : n.should_branch_cached ≡ some true → n.flag ≢ lazy

-- Whether a local submission finds the lock free and a free thread.
abbrev pub admits : Env → Bool
admits e = if e.locked then not (is_thread_pool_full e) else false

-- Whether a remote submission finds the lock free and opens the transmission channel.
abbrev pub opens : Env → Bool
opens e = if e.locked then e.channel_open else false

-- The channel was refused although the lock was free.
abbrev pub rejection : Env → ℕ
rejection e = if e.locked then (if e.channel_open then 0 else 1) else 0

module _ {A P : Type 0} where
  -- What becomes of the node on this thread: its function is called and returns, or throws, or the node is
  -- not worth it. `linked` is whether it stood in the tree.
  abbrev pub Forwarded : Bool → Bool → Node A P × Bool → Outcome A P → Type 0
  Forwarded false linked (m, true) o =
      (o.answer ≡ some false)
      × (o.effects ≡ invoked m.arguments ∷ [])
      × (o.node.state ≡ forwarded)
      × (o.node.linked ≡ false)
  Forwarded true linked (m, true) o =
      (o.answer ≡ none)
      × (o.effects ≡ invoked m.arguments ∷ [])
      × (o.node.state ≡ unused)
      × (o.node.linked ≡ linked)
  Forwarded fails linked (m, false) o =
      (o.answer ≡ some false) × (o.effects ≡ []) × (o.node.state ≡ unused) × (o.node.linked ≡ false)

  -- The node is handed to the pool, or discarded if it is not worth it.
  abbrev pub Handed : Bool → Node A P × Bool → Outcome A P → Type 0
  Handed answer (m, true) o =
      (o.answer ≡ some answer)
      × (o.effects ≡ submitted m.arguments ∷ [])
      × (o.node.state ≡ pushed)
      × (o.node.linked ≡ false)
  Handed answer (m, false) o =
      (o.answer ≡ some answer)
      × (o.effects ≡ [])
      × (o.node.state ≡ discarded)
      × (o.node.linked ≡ false)

  -- `answer` is the one for a node that is handed to the pool or discarded.
  abbrev pub Submitted : Bool → Bool → Bool → Bool → Node A P × Bool → Outcome A P → Type 0
  Submitted answer fails true linked x o = Handed answer x o
  Submitted answer fails false linked x o = Forwarded fails linked x o

  push_node-Handed :
      (b b' : Balancer) (n : Node A P)
      → IsReady n
      → Handed true (should_branch n) (push_node delegate_locally b b' n)
  unfolding push_node should_branch delegate_locally prune set_state is_consumed
  push_node-Handed b b' n r = ground arith

  forward-Forwarded :
      (fails : Bool) (b : Balancer) (n : Node A P)
      → IsReady n
      → Forwarded fails n.linked (should_branch n) (forward fails b n)
  unfolding forward should_branch run prune set_state is_consumed
  forward-Forwarded fails b n r = ground arith

  Handed-answer :
      (a : Bool) (x : Node A P × Bool) (o : Outcome A P) → Handed a x o → o.answer ≡ some a
  Handed-answer a (m, true) o h = h.0
  Handed-answer a (m, false) o h = h.0

  module _ (fails : Bool) (e : Env) (b : Balancer) (n : Node A P) where
    send_admitted : admits e ≡ true → send e b n ≡ push_node delegate_locally b (one_request b) n
    unfolding send
    send_admitted h = ground arith

    send_refused : admits e ≡ false → ((send e b n).answer ≡ some false) × ((send e b n).node ≡ n)
    unfolding send
    send_refused h = ground arith

    submit_sent : (send e b n).answer ≡ some true → try_local_submit fails e b n ≡ send e b n
    unfolding try_local_submit
    submit_sent h = ground arith

    submit_forwarded :
        (send e b n).answer ≡ some false
        → try_local_submit fails e b n ≡ forward fails (send e b n).balancer (send e b n).node
    unfolding try_local_submit
    submit_forwarded h = ground arith

    -- `try_local_submit` on a ready node. If the lock and a thread are free, the node is handed to the pool,
    -- or discarded when it is not worth branching, and the answer is true. Otherwise its function is called
    -- on this thread and the answer is false; the node is left unused when it is not worth it, and the
    -- function is not called then. The arguments are those that `should_branch` has ready. In all
    -- these cases the node is taken out of the tree. Only if the function is called here and throws, its
    -- exception is raised, and the node stays unused and where it was in the tree.
    pub local_submission :
        IsReady n
        → Submitted true fails (admits e) n.linked (should_branch n) (try_local_submit fails e b n)
    local_submission ready = elim (Bool-cases (admits e)) [
      | inl free ↦
          let pushes = push_node-Handed b (one_request b) n ready in
          let same = send_admitted free in
          let answer : (send e b n).answer ≡ some true =
            rw same (Handed-answer true (should_branch n) _ pushes) in
          rw (free, submit_sent answer, same) pushes
      | inr taken ↦
          let (answer, same) = send_refused taken in
          rw (taken, submit_forwarded answer, same)
            (forward-Forwarded fails (send e b n).balancer n ready)
    ]

  -- With the packet, if there is a serializer, and whether `force_push` takes it: the node is sent, or stays
  -- unused by an exception, out of the tree.
  abbrev pub SentIf : Bool → P → ℕ → Outcome A P → Type 0
  SentIf true p runner o =
      (o.answer ≡ some true)
      × (o.effects ≡ sent p runner ∷ [])
      × (o.node.state ≡ sent_to_another_process)
      × (o.node.linked ≡ false)
  SentIf false p runner o =
      (o.answer ≡ none) × (o.effects ≡ []) × (o.node.state ≡ unused) × (o.node.linked ≡ false)

  abbrev pub SentWith : Option (A → P) → (P → Bool) → ℕ → A → Outcome A P → Type 0
  SentWith none accepts runner a o =
      (o.answer ≡ none) × (o.effects ≡ []) × (o.node.state ≡ unused) × (o.node.linked ≡ false)
  SentWith (some f) accepts runner a o = SentIf (accepts (f a)) (f a) runner o

  -- The node is sent if it is worth it, and discarded if not.
  abbrev pub Sent : (P → Bool) → ℕ → Node A P × Bool → Outcome A P → Type 0
  Sent accepts runner (m, true) o = SentWith m.args_serializer accepts runner m.arguments o
  Sent accepts runner (m, false) o = Handed true (m, false) o

  push_node-Sent :
      (accepts : P → Bool) (runner : ℕ) (b b' : Balancer) (n : Node A P)
      → IsReady n
      → Sent accepts runner (should_branch n) (push_node (delegate_remotely accepts runner) b b' n)
  unfolding push_node should_branch delegate_remotely serialize prune set_state is_consumed
  push_node-Sent accepts runner b b' n r = ground arith

  -- What `try_remote_submit` makes of the local attempt: the answer is false, unless there is an exception.
  abbrev pub answers_false : Outcome A P → Outcome A P
  answers_false o = record o { answer = elim o.answer [ none ↦ none | some _ ↦ some false ] }

  Forwarded-false :
      (fails linked : Bool) (x : Node A P × Bool) (o : Outcome A P)
      → Forwarded fails linked x o
      → Forwarded fails linked x (answers_false o)
  Forwarded-false fails linked (m, true) o h = ground arith
  Forwarded-false fails linked (m, false) o h = ground arith

  Submitted-false :
      (fails admitted linked : Bool) (x : Node A P × Bool) (o : Outcome A P)
      → Submitted true fails admitted linked x o
      → Submitted false fails admitted linked x (answers_false o)
  Submitted-false fails true linked (m, true) o h = ground arith
  Submitted-false fails true linked (m, false) o h = ground arith
  Submitted-false fails false linked x o h = Forwarded-false fails linked x o h

  local_rejected_count :
      (fails : Bool) (e : Env) (b : Balancer) (n : Node A P)
      → (try_local_submit fails e b n).balancer.spawn_remote_rejected_count
        ≡ b.spawn_remote_rejected_count
  unfolding try_local_submit send forward push_node
  local_rejected_count fails e b n = ground arith

  -- How a submission to another process ends: `open_now` is whether the channel was opened.
  abbrev pub SubmittedRemotely :
      Bool → Bool → Bool → (P → Bool) → ℕ → Bool → Node A P × Bool → Outcome A P → Type 0
  SubmittedRemotely true fails admitted accepts runner linked x o = Sent accepts runner x o
  SubmittedRemotely false fails admitted accepts runner linked x o =
      Submitted false fails admitted linked x o

  module _ (fails : Bool) (e later : Env) (accepts : P → Bool) (runner : ℕ) (b : Balancer)
      (n : Node A P) where
    abbrev channel_refused : Balancer
    channel_refused =
        if e.locked
        then record b { spawn_remote_rejected_count = b.spawn_remote_rejected_count + 1 }
        else b

    send_remotely_refused :
        opens e ≡ false
        → send_remotely e accepts runner b n
          ≡ record { balancer = channel_refused; node = n; effects = []; answer = some false }
    unfolding send_remotely
    send_remotely_refused h = ground arith

    send_remotely_opened :
        opens e ≡ true
        → send_remotely e accepts runner b n ≡ push_node (delegate_remotely accepts runner) b b n
    unfolding send_remotely
    send_remotely_opened h = ground arith

    count_refused :
        opens e ≡ false
        → channel_refused.spawn_remote_rejected_count ≡ b.spawn_remote_rejected_count + rejection e
    count_refused h = ground arith

    count_opened :
        opens e ≡ true
        → (push_node (delegate_remotely accepts runner) b b n).balancer.spawn_remote_rejected_count
          ≡ b.spawn_remote_rejected_count + rejection e
    unfolding push_node
    count_opened h = ground arith

    Sent-answer :
        (x : Node A P × Bool) (o : Outcome A P)
        → Sent accepts runner x o
        → (o.answer ≡ some true) ⊎ (o.answer ≡ none)
    Sent-answer (m, true) o h = ground arith
    Sent-answer (m, false) o h = inl h.0

    sent_stays :
        (o : Outcome A P)
        → (o.answer ≡ some true) ⊎ (o.answer ≡ none)
        → or_locally fails later o ≡ o
    sent_stays o h = ground arith

    -- `try_remote_submit` on a ready node, with a scheduler's worker. If the lock is free and the channel is
    -- opened: the node is taken out of the tree; it is sent as the packet of its arguments, with the
    -- runner's id, or discarded when it is not worth branching; the answer is true. With no serializer, or if
    -- `force_push` refuses the packet, an exception is raised, nothing is sent, and the node stays
    -- unused. Otherwise it ends as `local_submission` says of the later attempt, but that the answer is
    -- false where that one's is true, and a refusal by the channel is counted.
    pub remote_submission :
        IsReady n
        → let o = try_remote_submit true fails e later accepts runner b n in
          SubmittedRemotely
            (opens e)
            fails
            (admits later)
            accepts
            runner
            n.linked
            (should_branch n)
            o
          × (o.balancer.spawn_remote_rejected_count ≡ b.spawn_remote_rejected_count + rejection e)
    unfolding try_remote_submit
    remote_submission ready = elim (Bool-cases (opens e)) [
      | inl free ↦
          let sends = push_node-Sent accepts runner b b n ready in
          let same =
            sent_stays (push_node (delegate_remotely accepts runner) b b n)
              (Sent-answer (should_branch n) _ sends) in
          rw (free, send_remotely_opened free, same) (sends, count_opened free)
      | inr refused ↦
          rw (refused, send_remotely_refused refused)
            (
              Submitted-false fails (admits later) n.linked (should_branch n)
                  (try_local_submit fails later channel_refused n)
                  (local_submission fails later channel_refused n ready),
              local_rejected_count fails later channel_refused n ∙ count_refused refused,
            )
    ]
