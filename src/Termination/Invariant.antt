-- ===== src/Termination/Invariant.antt =====
-- The invariant of the whole computation.
use gempba.Base.{ℕ, zero, suc, ◌+◌, ◌<◌, ◌≡◌, refl, ◌≢◌, ◌==◌, false, none, some, arith, All}
use gempba.Termination.Detector.{init}
use gempba.Termination.Handlers.{Msg, task, ack}
use gempba.Termination.Network.{Net, start}
use gempba.Termination.Owing.{owed_all, children}

-- Both ends of a message are ranks of the world.
abbrev pub IsAddressed : ℕ → Msg → Type 0
IsAddressed n (task s d) = (s < n) × (d < n)
IsAddressed n (ack s d) = (s < n) × (d < n)

-- `stamp` orders the ranks by the time at which they took their parent.
pub record Inv (n : ℕ) (stamp : ℕ → ℕ) (s : Net) : Type 0 where
  -- a rank's deficit counts its tasks on their way, its acknowledgements on their way, its children
  pub owes : (i : ℕ) → i < n → (s.det i).deficit ≡ owed_all i s.msgs + children n s.det i
  -- a worker with no parent has no work and is owed nothing
  pub idle :
      (j : ℕ)
      → j < n
      → j ≢ 0
      → (s.det j).parent ≡ none
      → ((s.det j).deficit ≡ 0) × (s.busy j ≡ false)
  pub roots : (j : ℕ) → (s.det j).is_root ≡ (j == 0)
  pub root_parent : (s.det 0).parent ≡ none
  pub older : (j i : ℕ) → j < n → (s.det j).parent ≡ some i → (i < n) × (stamp i < stamp j)
  pub addressed : All (IsAddressed n) s.msgs

children-start : (n i : ℕ) → children n start.det i ≡ 0
unfolding children start init
children-start zero i = refl
children-start (suc n) i = omega (arith, children-start n i)

pub start-Inv : (n : ℕ) → Inv n (λ _. 0) start
unfolding start init owed_all
start-Inv n = record {
  owes = λ i h. omega (arith, children-start n i);
  idle = λ j h ne e. ground arith;
  roots = λ j. refl;
  root_parent = refl;
  older = λ j i h e. absurd (ground arith);
  addressed = tt;
}
