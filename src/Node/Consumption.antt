-- ===== src/Node/Consumption.antt =====
-- A node is consumed at most once.
use gempba.Base.{
  ℕ, ◌≡◌, refl, ◌≢◌, Bool, true, false, Bool-cases, inl, inr, List, [], ◌∷◌, ◌++◌, Option, none,
  some, arith,
}
use gempba.Node.Life.{
  Node, Effect, invoked, State, unused, Ran, rejected, failed, returned, is_consumed, run,
  delegate_locally, delegate_remotely, set_state, should_branch, deserialize, get_any_result, prune,
}

-- What the balancers, the pool and the user may do with a node, in any order; the calls do not overlap. `runs`
-- tells whether the user's function throws, and `marks` is `set_state`, which no code calls with UNUSED.
pub data Op (A P : Type 0) : Type 0 where
  runs : Bool → Op A P
  delegates : Op A P
  delegates_remotely : (P → Bool) → ℕ → Op A P
  asks : Op A P
  marks : (s : State) → s ≢ unused → Op A P
  receives : P → Op A P
  retrieves : Op A P
  prunes : Op A P

-- The function was called and threw; or it returned, or was handed to the pool or to another process.
pub data Happening (A P : Type 0) : Type 0 where
  threw : A → Happening A P
  completed : Effect A P → Happening A P

module _ {A P : Type 0} where
  abbrev completed_all : List (Effect A P) → List (Happening A P)
  completed_all [] = []
  completed_all (e ∷ es) = completed e ∷ completed_all es

  -- A delegation that raises an exception hands nothing over.
  abbrev pub delegation : Node A P × Option (List (Effect A P)) → Node A P × List (Happening A P)
  delegation (n, none) = (n, [])
  delegation (n, some es) = (n, completed_all es)

  abbrev pub of_run : Node A P × Ran A → Node A P × List (Happening A P)
  of_run (n, rejected) = (n, [])
  of_run (n, failed a) = (n, threw a ∷ [])
  of_run (n, returned a) = (n, completed (invoked a) ∷ [])

  unfoldable pub apply : Op A P → Node A P → Node A P × List (Happening A P)
  apply (runs fails) n = of_run (run fails n)
  apply delegates n = delegation (delegate_locally n)
  apply (delegates_remotely accepts runner) n = delegation (delegate_remotely accepts runner n)
  apply asks n = ((should_branch n).0, [])
  apply (marks s _) n = (set_state s n, [])
  apply (receives p) n = ((deserialize p n).0, [])
  apply retrieves n = (get_any_result n, [])
  apply prunes n = (prune n, [])

  -- All events of a sequence of calls.
  unfoldable pub history : List (Op A P) → Node A P → List (Happening A P)
  history [] n = []
  history (o ∷ os) n = (apply o n).1 ++ history os (apply o n).0

  -- Nothing follows the first event that is no exception.
  abbrev pub IsOnce : List (Happening A P) → Type 0
  IsOnce [] = Unit
  IsOnce (threw a ∷ es) = IsOnce es
  IsOnce (completed e ∷ es) = es ≡ []

  -- And nothing at all follows if the node was consumed before.
  abbrev pub OnceUnless : Bool → List (Happening A P) → Type 0
  OnceUnless true es = es ≡ []
  OnceUnless false es = IsOnce es

  -- A consumed node stays consumed and nothing happens with it any more.
  apply_consumed :
      (o : Op A P) (n : Node A P)
      → is_consumed n ≡ true
      → (is_consumed (apply o n).0 ≡ true) × ((apply o n).1 ≡ [])
  unfolding apply is_consumed run delegate_locally delegate_remotely should_branch set_state
      deserialize get_any_result prune
  apply_consumed (runs fails) n h = ground arith
  apply_consumed delegates n h = ground arith
  apply_consumed (delegates_remotely accepts runner) n h = ground arith
  apply_consumed asks n h = ground arith
  apply_consumed (marks s ne) n h = ground arith
  apply_consumed (receives p) n h = ground arith
  apply_consumed retrieves n h = ground arith
  apply_consumed prunes n h = ground arith

  -- Whether the call ended with something that consumes the node.
  abbrev Applied : Node A P × List (Happening A P) → Type 0
  Applied (m, []) = Unit
  Applied (m, threw a ∷ es) = es ≡ []
  Applied (m, completed e ∷ es) = (is_consumed m ≡ true) × (es ≡ [])

  apply-Applied : (o : Op A P) (n : Node A P) → Applied (apply o n)
  unfolding apply is_consumed run delegate_locally delegate_remotely should_branch set_state
      deserialize get_any_result prune
  apply-Applied (runs fails) n = ground arith
  apply-Applied delegates n = ground arith
  apply-Applied (delegates_remotely accepts runner) n = ground arith
  apply-Applied asks n = tt
  apply-Applied (marks s ne) n = tt
  apply-Applied (receives p) n = tt
  apply-Applied retrieves n = tt
  apply-Applied prunes n = tt

  history_consumed : (os : List (Op A P)) (n : Node A P) → is_consumed n ≡ true → history os n ≡ []
  unfolding history
  history_consumed [] n h = refl
  history_consumed (o ∷ os) n h =
      let (still, none_here) = apply_consumed o n h in
      rw (none_here) (history_consumed os (apply o n).0 still)

  one_first :
      (x : Node A P × List (Happening A P)) (rest : List (Happening A P))
      → Applied x
      → (is_consumed x.0 ≡ true → rest ≡ [])
      → IsOnce rest
      → IsOnce (x.1 ++ rest)
  one_first (m, []) rest a stops once = once
  one_first (m, threw b ∷ es) rest a stops once = rw a once
  one_first (m, completed e ∷ es) rest (used, alone) stops once = rw alone (stops used)

  history-IsOnce : (os : List (Op A P)) (n : Node A P) → IsOnce (history os n)
  unfolding history
  history-IsOnce [] n = tt
  history-IsOnce (o ∷ os) n =
      one_first (apply o n) (history os (apply o n).0) (apply-Applied o n)
        (history_consumed os (apply o n).0) (history-IsOnce os (apply o n).0)

  -- Whatever calls are made on a node, one after the other, set_state to UNUSED apart: the user's function
  -- may be called again after a call of it that threw, but once it has returned, or was handed to the
  -- thread pool or sent to another process, it is neither called nor handed over any more; and never, if
  -- the node was consumed before.
  pub consumed_once :
      (os : List (Op A P)) (n : Node A P) → OnceUnless (is_consumed n) (history os n)
  consumed_once os n = elim (Bool-cases (is_consumed n)) [
    | inl used ↦ rw used (history_consumed os n used)
    | inr fresh ↦ rw fresh (history-IsOnce os n)
  ]
