-- ===== src/Central/Counts.antt =====
-- The number of available workers, as the states change.
use gempba.Base.{
  ℕ, zero, suc, ◌+◌, ◌-◌, ◌<◌, ◌≤◌, ◌≡◌, ◌≢◌, refl, ◌∙◌, ap, if◌then◌else◌, Bool, List, [], ◌∷◌,
  some, length, get_elem?, set, length-drop, arith,
}
use gempba.Base.Int.{pos}
use gempba.Central.Dispatch.{
  State, running, assigned, available, is_available, available_from, assign, zip,
  dispatch_to_available, dispatch_to_available_lem,
}
use gempba.Central.Center.{minus}

abbrev pub one_if : Bool → ℕ
one_if b = if b then 1 else 0

abbrev pub count : List State → ℕ
count [] = 0
count (s ∷ ss) = one_if (is_available s) + count ss

-- The available workers; the center stands first.
abbrev pub idle_workers : List State → ℕ
idle_workers [] = 0
idle_workers (center ∷ ss) = count ss

length-available_from : (r : ℕ) (ss : List State) → length (available_from r ss) ≡ count ss
length-available_from r [] = refl
length-available_from r (running ∷ ss) = omega (arith, length-available_from (r + 1) ss)
length-available_from r (assigned ∷ ss) = omega (arith, length-available_from (r + 1) ss)
length-available_from r (available ∷ ss) = omega (arith, length-available_from (r + 1) ss)

count-set_running :
    (ss : List State) (i : ℕ)
    → get_elem? ss i ≢ some available
    → count (set ss i running) ≡ count ss
count-set_running [] i h = refl
count-set_running (running ∷ ss) zero h = refl
count-set_running (assigned ∷ ss) zero h = refl
count-set_running (available ∷ ss) zero h = absurd (h refl)
count-set_running (s ∷ ss) (suc i) h =
    ap (λ n. one_if (is_available s) + n) (count-set_running ss i h)

count-set_available :
    (ss : List State) (i : ℕ)
    → i < length ss
    → get_elem? ss i ≢ some available
    → count (set ss i available) ≡ count ss + 1
count-set_available [] i h k = ground arith
count-set_available (running ∷ ss) zero h k = omega arith
count-set_available (assigned ∷ ss) zero h k = omega arith
count-set_available (available ∷ ss) zero h k = absurd (k refl)
count-set_available (s ∷ ss) (suc i) h k =
    let e = count-set_available ss i (omega arith) k in omega (arith, e)

count-assign : (n : ℕ) (ss : List State) → n ≤ count ss → count (assign n ss) + n ≡ count ss
count-assign zero ss h = omega arith
count-assign (suc n) [] h = ground arith
count-assign (suc n) (running ∷ ss) h = omega (arith, count-assign (suc n) ss)
count-assign (suc n) (assigned ∷ ss) h = omega (arith, count-assign (suc n) ss)
count-assign (suc n) (available ∷ ss) h =
    let e = count-assign n ss (omega arith) in omega (arith, e)

pub length-set : (ss : List State) (i : ℕ) (v : State) → length (set ss i v) ≡ length ss
length-set [] i v = refl
length-set (s ∷ ss) zero v = refl
length-set (s ∷ ss) (suc i) v = ap suc (length-set ss i v)

pub length-assign : (n : ℕ) (ss : List State) → length (assign n ss) ≡ length ss
length-assign zero ss = refl
length-assign (suc n) [] = refl
length-assign (suc n) (running ∷ ss) = ap suc (length-assign (suc n) ss)
length-assign (suc n) (assigned ∷ ss) = ap suc (length-assign (suc n) ss)
length-assign (suc n) (available ∷ ss) = ap suc (length-assign n ss)

pub count-le-length : (ss : List State) → count ss ≤ length ss
count-le-length [] = omega arith
count-le-length (running ∷ ss) = omega (arith, count-le-length ss)
count-le-length (assigned ∷ ss) = omega (arith, count-le-length ss)
count-le-length (available ∷ ss) = omega (arith, count-le-length ss)

length-zip :
    {B : Type 0} (rs : List ℕ) (q : List B)
    → (length (zip rs q) ≤ length rs) × (length (zip rs q) ≤ length q)
length-zip [] q = (omega arith, omega arith)
length-zip (r ∷ rs) [] = (omega arith, omega arith)
length-zip (r ∷ rs) (b ∷ q) = let h = length-zip rs q in (omega (arith, h.0), omega (arith, h.1))

pub idle_workers-running :
    (ss : List State) (src : ℕ)
    → 0 < src
    → get_elem? ss src ≢ some available
    → idle_workers (set ss src running) ≡ idle_workers ss
idle_workers-running [] src h k = refl
idle_workers-running (s ∷ ss) zero h k = ground arith
idle_workers-running (s ∷ ss) (suc i) h k = count-set_running ss i k

pub idle_workers-available :
    (ss : List State) (src : ℕ)
    → 0 < src
    → src < length ss
    → get_elem? ss src ≢ some available
    → idle_workers (set ss src available) ≡ idle_workers ss + 1
idle_workers-available [] src h l k = ground arith
idle_workers-available (s ∷ ss) zero h l k = ground arith
idle_workers-available (s ∷ ss) (suc i) h l k = count-set_available ss i (omega arith) k

pub idle_workers-dispatch :
    {B : Type 0} (ss : List State) (q : List B)
    → let d = dispatch_to_available ss q in
      (idle_workers d.states + length d.sent ≡ idle_workers ss)
      × (length d.states ≡ length ss)
      × (length d.queue + length d.sent ≡ length q)
      × (length d.sent ≤ length ss - 1)
unfolding dispatch_to_available
idle_workers-dispatch [] q = (omega arith, refl, omega arith, omega arith)
idle_workers-dispatch (center ∷ ss) q =
    let (sent, queue, states, rest) = dispatch_to_available_lem center ss q in
    let n = length (dispatch_to_available (center ∷ ss) q).sent in
    let short = length-zip (available_from 1 ss) q in
    let few : n ≤ count ss = omega (arith, ap length sent, short.0, length-available_from 1 ss) in
    let some_left : n ≤ length q = omega (arith, ap length sent, short.1) in
    (
      ap (λ l. idle_workers l + n) states ∙ count-assign n ss few,
      ap length states ∙ ap suc (length-assign n ss),
      omega (arith, ap length queue, length-drop n q),
      omega (arith, few, count-le-length ss),
    )

pub minus_lem : (n m : ℕ) → minus n (pos (m + n)) ≡ pos m
minus_lem zero m = ap pos (omega arith)
minus_lem (suc n) m = let e : m + suc n ≡ suc (m + n) = omega arith in rw e (minus_lem n m)
