-- ===== src/Node/Branching.antt =====
-- `should_branch` and the initializer.
use gempba.Base.{◌+◌, ◌≡◌, false, none, arith}
use gempba.Node.Life.{Node, unused, lazy, should_branch}

module _ {A P : Type 0} (n : Node A P) where
  -- A second call answers as the first and changes nothing, so the initializer is not asked again.
  should_branch_stable : should_branch (should_branch n).0 ≡ should_branch n
  unfolding should_branch
  should_branch_stable = ground arith

  -- `should_branch` leaves the state alone, asks at most once, and says no on a lazy node exactly when the
  -- initializer gave nothing.
  should_branch_lazy :
      n.state ≡ unused
      → n.flag ≡ lazy
      → n.should_branch_cached ≡ none
      → ((should_branch n).0.state ≡ unused)
        × ((should_branch n).0.init_calls ≡ n.init_calls + 1)
        × ((should_branch n).1 ≡ false → n.initializer n.init_calls ≡ none)
        × (n.initializer n.init_calls ≡ none → (should_branch n).1 ≡ false)
  unfolding should_branch
  should_branch_lazy u l c = ground arith
