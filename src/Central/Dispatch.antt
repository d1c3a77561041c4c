-- ===== src/Central/Dispatch.antt =====
-- dispatch_to_available in centralized_utils.hpp. The states are those of the ranks from `r` on.
use gempba.Base.{
  ℕ, zero, suc, ◌+◌, ◌≡◌, refl, ap, sym, ◌∙◌, if◌then◌else◌, Bool, true, false, List, [], ◌∷◌,
  length, drop, ◌⊎◌, inl, inr,
}

-- RUNNING_STATE, ASSIGNED_STATE, AVAILABLE_STATE
pub data State : Type 0 where
  running assigned available : State

abbrev pub is_available : State → Bool
is_available available = true
is_available _ = false

pub record Dispatched (B : Type 0) : Type 0 where
  pub states : List State
  pub queue : List B
  -- the ranks and the tasks that were handed to them, in this order
  pub sent : List (ℕ × B)

module _ {B : Type 0} where
  unfoldable pub dispatch_from : ℕ → List State → List B → Dispatched B
  dispatch_from r [] q = record { states = []; queue = q; sent = [] }
  dispatch_from r (s ∷ ss) [] = record { states = s ∷ ss; queue = []; sent = [] }
  dispatch_from r (s ∷ ss) (b ∷ bs) =
      let hit = dispatch_from (r + 1) ss bs in
      let pass = dispatch_from (r + 1) ss (b ∷ bs) in
      if is_available s
      then record hit { states = assigned ∷ hit.states; sent = (r, b) ∷ hit.sent }
      else record pass { states = s ∷ pass.states }

  -- The loop starts at rank 1.
  unfoldable pub dispatch_to_available : List State → List B → Dispatched B
  unfolding dispatch_from
  dispatch_to_available [] q = record { states = []; queue = q; sent = [] }
  dispatch_to_available (center ∷ ss) q =
      let d = dispatch_from 1 ss q in record d { states = center ∷ d.states }

  abbrev pub zip : List ℕ → List B → List (ℕ × B)
  zip [] bs = []
  zip (r ∷ rs) [] = []
  zip (r ∷ rs) (b ∷ bs) = (r, b) ∷ zip rs bs

-- The ranks that are available, in ascending order.
abbrev pub available_from : ℕ → List State → List ℕ
available_from r [] = []
available_from r (s ∷ ss) =
    if is_available s then r ∷ available_from (r + 1) ss else available_from (r + 1) ss

abbrev pub available_ranks : List State → List ℕ
available_ranks [] = []
available_ranks (center ∷ ss) = available_from 1 ss

-- The first `n` available ranks are assigned.
abbrev pub assign : ℕ → List State → List State
assign zero ss = ss
assign (suc n) [] = []
assign (suc n) (s ∷ ss) = if is_available s then assigned ∷ assign n ss else s ∷ assign (suc n) ss

passes :
    (s : State) (ss : List State) (n : ℕ)
    → is_available s ≡ false
    → s ∷ assign n ss ≡ assign n (s ∷ ss)
passes s ss zero e = refl
passes s ss (suc n) e = rw e refl

module _ {B : Type 0} where
  zip-nil : (rs : List ℕ) → zip {B = B} rs [] ≡ []
  zip-nil [] = refl
  zip-nil (r ∷ rs) = refl

  used :
      (rs : List ℕ) (q : List B)
      → (drop (length (zip rs q)) q ≡ []) ⊎ (length (zip rs q) ≡ length rs)
  used [] q = inr refl
  used (r ∷ rs) [] = inl refl
  used (r ∷ rs) (b ∷ bs) = elim (used rs bs) [ inl e ↦ inl e | inr e ↦ inr (ap suc e) ]

  pub dispatch_from_lem :
      (r : ℕ) (ss : List State) (q : List B)
      → ((dispatch_from r ss q).sent ≡ zip (available_from r ss) q)
        × ((dispatch_from r ss q).queue ≡ drop (length (zip (available_from r ss) q)) q)
        × ((dispatch_from r ss q).states ≡ assign (length (zip (available_from r ss) q)) ss)
  unfolding dispatch_from
  dispatch_from_lem r [] q = (refl, refl, refl)
  dispatch_from_lem r (s ∷ ss) [] = rw (zip-nil (available_from r (s ∷ ss))) (refl, refl, refl)
  dispatch_from_lem r (running ∷ ss) (b ∷ bs) =
      let (sent, queue, states) = dispatch_from_lem (r + 1) ss (b ∷ bs) in
      (sent, queue, ap (λ l. running ∷ l) states ∙ passes running ss _ refl)
  dispatch_from_lem r (assigned ∷ ss) (b ∷ bs) =
      let (sent, queue, states) = dispatch_from_lem (r + 1) ss (b ∷ bs) in
      (sent, queue, ap (λ l. assigned ∷ l) states ∙ passes assigned ss _ refl)
  dispatch_from_lem r (available ∷ ss) (b ∷ bs) =
      let (sent, queue, states) = dispatch_from_lem (r + 1) ss bs in
      (ap (λ l. (r, b) ∷ l) sent, queue, ap (λ l. assigned ∷ l) states)

  -- The loop ends because no task is left, or because no rank is.
  pub exhausted :
      (r : ℕ) (ss : List State) (q : List B)
      → (drop (length (zip (available_from r ss) q)) q ≡ [])
        ⊎ (length (zip (available_from r ss) q) ≡ length (available_from r ss))
  exhausted r ss q = used (available_from r ss) q

-- dispatch_to_available on any states and any queue: the tasks at the front of the queue go out one by
-- one to the available ranks but the center in ascending order, as far as both reach; these tasks leave
-- the queue, the first so many available ranks are assigned, the others keep their state, and then the
-- queue is empty or no rank was left.
pub dispatch_to_available_lem :
    {B : Type 0} (center : State) (ss : List State) (q : List B)
    → let d = dispatch_to_available (center ∷ ss) q in
      let n = length d.sent in
      (d.sent ≡ zip (available_from 1 ss) q)
      × (d.queue ≡ drop n q)
      × (d.states ≡ center ∷ assign n ss)
      × ((d.queue ≡ []) ⊎ (n ≡ length (available_from 1 ss)))
unfolding dispatch_to_available
dispatch_to_available_lem center ss q =
    let (sent, queue, states) = dispatch_from_lem 1 ss q in
    let n = ap length sent in
    (
      sent,
      queue ∙ ap (λ m. drop m q) (sym n),
      ap (λ l. center ∷ l) (states ∙ ap (λ m. assign m ss) (sym n)),
      elim (exhausted 1 ss q) [ inl e ↦ inl (queue ∙ e) | inr e ↦ inr (n ∙ e) ],
    )
