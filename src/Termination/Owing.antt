-- ===== src/Termination/Owing.antt =====
-- What is still owed to a rank: its tasks on their way, acknowledgements on their way to it, and the
-- ranks that have it as parent.
use gempba.Base.{
  ℕ, zero, suc, ◌+◌, ◌≤◌, ◌<◌, ◌≡◌, refl, ◌⊎◌, inl, inr, ◌==◌, Bool, true, false, List, [], ◌∷◌,
  ◌++◌, none, some, arith, update,
}
use gempba.Termination.Detector.{Detector}
use gempba.Termination.Handlers.{Msg, task, ack}

abbrev pub one_if : Bool → ℕ
one_if true = 1
one_if false = 0

unfoldable pub owed : ℕ → Msg → ℕ
owed i (task s d) = one_if (s == i)
owed i (ack s d) = one_if (d == i)

unfoldable pub owed_all : ℕ → List Msg → ℕ
owed_all i [] = 0
owed_all i (m ∷ ms) = owed i m + owed_all i ms

pub owed_all-split :
    (i : ℕ) (xs : List Msg) (m : Msg) (ys : List Msg)
    → owed_all i (xs ++ m ∷ ys) ≡ owed i m + owed_all i (xs ++ ys)
unfolding owed_all
owed_all-split i [] m ys = refl
owed_all-split i (x ∷ xs) m ys = omega (arith, owed_all-split i xs m ys)

abbrev pub has_parent : ℕ → Detector → ℕ
has_parent i d = elim d.parent [ none ↦ 0 | some p ↦ one_if (p == i) ]

-- The ranks below `n` whose parent is `i`.
unfoldable pub children : ℕ → (ℕ → Detector) → ℕ → ℕ
children zero det i = 0
children (suc n) det i = has_parent i (det n) + children n det i

children-update_above :
    (n : ℕ) (det : ℕ → Detector) (k : ℕ) (d : Detector) (i : ℕ)
    → n ≤ k
    → children n (update det k d) i ≡ children n det i
unfolding children
children-update_above zero det k d i h = refl
children-update_above (suc n) det k d i h = ground (arith, children-update_above n det k d i)

pub children-update :
    (n : ℕ) (det : ℕ → Detector) (k : ℕ) (d : Detector) (i : ℕ)
    → k < n
    → children n (update det k d) i + has_parent i (det k) ≡ children n det i + has_parent i d
unfolding children
children-update zero det k d i h = elim h [ ]
children-update (suc n) det k d i h =
    ground (arith, children-update n det k d i, children-update_above n det k d i)

pub children_pos :
    (n : ℕ) (det : ℕ → Detector) (j i : ℕ) → j < n → (det j).parent ≡ some i → 0 < children n det i
unfolding children
children_pos zero det j i h e = elim h [ ]
children_pos (suc n) det j i h e = ground (arith, children_pos n det j i)

has_parent_cases : (d : Detector) (i : ℕ) → (has_parent i d ≡ 0) ⊎ (d.parent ≡ some i)
has_parent_cases d i = ground arith

pub child_of_children :
    (n : ℕ) (det : ℕ → Detector) (i : ℕ)
    → 0 < children n det i
    → (j : ℕ) × (j < n) × ((det j).parent ≡ some i)
unfolding children
child_of_children zero det i h = absurd (omega arith)
child_of_children (suc n) det i h = elim (has_parent_cases (det n) i) [
  | inl e ↦ let (j, lt, p) = child_of_children n det i (omega arith) in (j, omega arith, p)
  | inr p ↦ (n, omega arith, p)
]

-- The debts after rank `k` has changed its detector and messages have come or gone: enough that each
-- rank's count moves with its deficit.
pub owes_update :
    (n : ℕ) (det : ℕ → Detector) (k : ℕ) (d : Detector) (ms ms' : List Msg) (i : ℕ)
    → k < n
    → (det i).deficit ≡ owed_all i ms + children n det i
    → (update det k d i).deficit + owed_all i ms + has_parent i (det k)
      ≡ (det i).deficit + owed_all i ms' + has_parent i d
    → (update det k d i).deficit ≡ owed_all i ms' + children n (update det k d) i
owes_update n det k d ms ms' i h old moved = omega (arith, children-update n det k d i h)
