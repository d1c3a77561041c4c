-- ===== src/Node/Life.antt =====
-- The life of one node_core_impl: its arguments, its state, and who executes it. The links to other
-- nodes are left aside here. `A` is the tuple of arguments, `P` the packets.
-- The user's closures are parameters: `initializer k` is what the initializer answers at its call number
-- k, so it may answer differently each time; the ghost field `init_calls` counts those calls.
-- A call of the user's function is an effect, and so is handing it to the pool or to another process. Whether
-- the function throws is given for each call; the other closures are taken not to throw.
use gempba.Base.{
  ℕ, ◌+◌, if◌then◌else◌, Bool, true, false, ◌||◌, not, List, [], ◌∷◌, Option, none, some,
}

pub data State : Type 0 where
  unused forwarded pushed discarded retrieved sent_to_another_process : State

pub data Flag : Type 0 where
  uninitialized initialized lazy deserialized : Flag

pub record Node (A P : Type 0) : Type 0 where
  pub initializer : ℕ → Option A
  pub init_calls : ℕ
  pub args_serializer : Option (A → P)
  pub args_deserializer : Option (P → A)
  pub should_branch_cached : Option Bool
  pub flag : Flag
  pub arguments : A
  pub state : State
  pub forward_count : ℕ
  pub push_count : ℕ
  -- whether the node stands in the tree: `prune` takes it out, with its parent, children and root
  pub linked : Bool

-- What leaves the node: a call of the runnable on this thread, a task for the thread pool, or a task for
-- another process.
pub data Effect (A P : Type 0) : Type 0 where
  invoked : A → Effect A P
  submitted : A → Effect A P
  sent : P → ℕ → Effect A P

abbrev pub is_unused : State → Bool
is_unused unused = true
is_unused _ = false

abbrev pub is_lazy : Flag → Bool
is_lazy lazy = true
is_lazy _ = false

abbrev pub is_uninitialized : Flag → Bool
is_uninitialized uninitialized = true
is_uninitialized _ = false

abbrev pub is_initialized : Flag → Bool
is_initialized initialized = true
is_initialized _ = false

-- forwarded, pushed or discarded
abbrev pub is_settled : State → Bool
is_settled forwarded = true
is_settled pushed = true
is_settled discarded = true
is_settled _ = false

-- How `run` ends: with an exception before the function is called, with an exception of the function that was
-- called with these arguments, or with its return.
pub data Ran (A : Type 0) : Type 0 where
  rejected : Ran A
  failed : A → Ran A
  returned : A → Ran A

-- The rest: an exception is `none`; what was written before it stays written.
abbrev pub Act : Type 0 → Type 0 → Type 0
Act A P = Node A P → Node A P × Option (List (Effect A P))

module _ {A P : Type 0} where
  abbrev pub throw : Node A P → Node A P × Option (List (Effect A P))
  throw n = (n, none)

  unfoldable pub is_consumed : Node A P → Bool
  is_consumed n = not (is_unused n.state)

  unfoldable pub call_initializer : Node A P → Node A P
  call_initializer n = record n { init_calls = n.init_calls + 1 }

  -- `ensure_args_initialized`; the second part is false on an exception
  unfoldable pub ensure_args_initialized : Node A P → Node A P × Bool
  unfolding call_initializer
  ensure_args_initialized n =
      if is_uninitialized n.flag
      then (n, false)
      else if is_lazy n.flag
      then elim (n.initializer n.init_calls) [
        | none ↦ (call_initializer n, false)
        | some a ↦ (record (call_initializer n) { arguments = a; flag = initialized }, true)
      ]
      else (n, true)

  -- `fails`: the user's function throws. The node is forwarded only once the function has returned.
  unfoldable pub run : Bool → Node A P → Node A P × Ran A
  unfolding ensure_args_initialized
  run fails n =
      let (m, fine) = ensure_args_initialized n in
      if not (is_unused n.state)
      then (n, rejected)
      else if not fine
      then (m, rejected)
      else if fails
      then (m, failed m.arguments)
      else (record m { state = forwarded }, returned m.arguments)

  unfoldable pub delegate_locally : Act A P
  unfolding ensure_args_initialized
  delegate_locally n =
      let (m, fine) = ensure_args_initialized n in
      if not (is_unused n.state)
      then throw n
      else if not fine
      then throw m
      else (record m { state = pushed }, some (submitted m.arguments ∷ []))

  -- `none` is an exception
  unfoldable pub serialize : Node A P → Option P
  serialize n =
      if is_uninitialized n.flag || is_lazy n.flag
      then none
      else elim n.args_serializer [ none ↦ none | some f ↦ some (f n.arguments) ]

  unfoldable pub deserialize : P → Node A P → Node A P × Bool
  deserialize p n = if not (is_uninitialized n.flag) then (n, false) else elim n.args_deserializer [
    | none ↦ (n, false)
    | some f ↦ (record n { arguments = f p; flag = deserialized }, true)
  ]

  -- `accepts` says whether the worker's `force_push` takes the packet or throws.
  unfoldable pub delegate_remotely : (P → Bool) → ℕ → Act A P
  unfolding ensure_args_initialized serialize
  delegate_remotely accepts runner n =
      let (m, fine) = ensure_args_initialized n in
      if not (is_unused n.state)
      then throw n
      else if not fine
      then throw m
      else elim (serialize m) [
        | none ↦ throw m
        | some p ↦
            if accepts p
            then (record m { state = sent_to_another_process }, some (sent p runner ∷ []))
            else throw m
      ]

  unfoldable pub set_state : State → Node A P → Node A P
  set_state forwarded n = record n { state = forwarded; forward_count = n.forward_count + 1 }
  set_state pushed n = record n { state = pushed; push_count = n.push_count + 1 }
  set_state s n = record n { state = s }

  unfoldable pub should_branch : Node A P → Node A P × Bool
  unfolding call_initializer
  should_branch n = elim n.should_branch_cached [
    | some b ↦ (n, b)
    | none ↦
        if is_settled n.state
        then (record n { flag = initialized; should_branch_cached = some false }, false)
        else if not (is_lazy n.flag)
        then (record n { should_branch_cached = some true }, true)
        else elim (n.initializer n.init_calls) [
          | none ↦ (
            record (call_initializer n) { should_branch_cached = some false; flag = initialized },
            false,
          )
          | some a ↦ (
            record (call_initializer n) {
              arguments = a;
              flag = initialized;
              should_branch_cached = some true;
            },
            true,
          )
        ]
  ]

  unfoldable pub prune : Node A P → Node A P
  prune n = record n { linked = false }

  -- `get_any_result`: what becomes of the node
  unfoldable pub get_any_result : Node A P → Node A P
  get_any_result n = record n { state = retrieved }

  -- The constructors: explicit arguments, a lazy initializer, or a node for a packet to come. The
  -- explicit form's initializer answers the arguments.
  unfoldable pub explicit : A → Option (A → P) → Option (P → A) → Node A P
  explicit a s d = record {
    initializer = λ _. some a;
    init_calls = 0;
    args_serializer = s;
    args_deserializer = d;
    should_branch_cached = none;
    flag = initialized;
    arguments = a;
    state = unused;
    forward_count = 0;
    push_count = 0;
    linked = true;
  }

  -- `empty` stands for the default value of the arguments.
  unfoldable pub placeholder : A → Option (A → P) → Option (P → A) → Node A P
  placeholder empty s d = record {
    initializer = λ _. none;
    init_calls = 0;
    args_serializer = s;
    args_deserializer = d;
    should_branch_cached = none;
    flag = uninitialized;
    arguments = empty;
    state = unused;
    forward_count = 0;
    push_count = 0;
    linked = true;
  }

  unfoldable pub lazily : A → (ℕ → Option A) → Option (A → P) → Option (P → A) → Node A P
  unfolding placeholder
  lazily empty f s d = record (placeholder empty s d) { initializer = f; flag = lazy }
