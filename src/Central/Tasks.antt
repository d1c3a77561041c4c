-- ===== src/Central/Tasks.antt =====
-- centralized_utils.hpp: the priority of a task, and the queue of the center. std::priority_queue is kept
-- as a list, the next task first; between tasks of one priority the program promises no order.
use Prim.Native.Nat.{bit_and}
use gempba.Base.{
  ◌⊎◌, ltb, subst, sym, drop, Bool-cases, inl, inr, ℕ, zero, suc, ◌+◌, ◌*◌, ◌/◌, ◌%◌, ◌<◌, ◌≤◌, ◌≡◌,
  refl, ◌==◌, ==_iff, leb, if◌then◌else◌, Bool, List, [], ◌∷◌, All, All-imp, arith,
}

pub record Bundle : Type 0 where
  pub bytes : List ℕ
  pub runnable_id : ℕ

-- `(v_uc * 01001001001ULL & 042104210421ULL) % 017` on an unsigned char
unfoldable pub get_nb_set_bits : ℕ → ℕ
get_nb_set_bits c = bit_and ((c % 256) * 134480385) 4581298449 % 15

unfoldable pub packet_bits : List ℕ → ℕ
unfolding get_nb_set_bits
packet_bits [] = 0
packet_bits (b ∷ bs) = get_nb_set_bits b + packet_bits bs

unfoldable pub bundle_bits : Bundle → ℕ
unfolding packet_bits get_nb_set_bits
bundle_bits b = packet_bits b.bytes + get_nb_set_bits b.runnable_id

-- `task_bundle_comparator`: whether `a` comes behind `b`
unfoldable pub behind : Bundle → Bundle → Bool
unfolding bundle_bits
behind a b = leb (bundle_bits a) (bundle_bits b)

unfoldable pub push : Bundle → List Bundle → List Bundle
push b [] = b ∷ []
push b (c ∷ cs) = if behind c b then b ∷ c ∷ cs else c ∷ push b cs

-- Each task has at least the priority of those behind it.
abbrev pub Ordered : List Bundle → Type 0
Ordered [] = Unit
Ordered (b ∷ bs) = All (λ c. bundle_bits c ≤ bundle_bits b) bs × Ordered bs

pub push-All :
    (P : Bundle → Type 0) (b : Bundle) (q : List Bundle) → P b → All P q → All P (push b q)
unfolding push
push-All P b [] p ps = (p, tt)
push-All P b (c ∷ cs) p (pc, ps) = elim (Bool-cases (behind c b)) [
  | inl first ↦ rw first (p, (pc, ps))
  | inr later ↦ rw later (pc, push-All P b cs p ps)
]

pub push-Ordered : (b : Bundle) (q : List Bundle) → Ordered q → Ordered (push b q)
unfolding push behind
push-Ordered b [] o = (tt, tt)
push-Ordered b (c ∷ cs) (low, o) = elim (Bool-cases (behind c b)) [
  | inl first ↦
      let le : bundle_bits c ≤ bundle_bits b = ground arith in
      rw first ((le, All-imp (λ d h. omega arith) cs low), (low, o))
  | inr later ↦
      let le : bundle_bits b ≤ bundle_bits c = ground arith in
      rw later (push-All (λ d. bundle_bits d ≤ bundle_bits c) b cs le low, push-Ordered b cs o)
]

pub drop-Ordered : (n : ℕ) (q : List Bundle) → Ordered q → Ordered (drop n q)
drop-Ordered zero q o = o
drop-Ordered (suc n) [] o = o
drop-Ordered (suc n) (b ∷ bs) (low, o) = drop-Ordered n bs o

-- The number of ones among the last `n` binary digits.
abbrev pub ones : ℕ → ℕ → ℕ
ones zero c = 0
ones (suc n) c = c % 2 + ones n (c / 2)

below_or_top : (c n : ℕ) → c < suc n → (c < n) ⊎ (c ≡ n)
below_or_top c n h = elim (Bool-cases (ltb c n)) [
  | inl less ↦ inl (ground arith)
  | inr not_less ↦ inr (ground arith)
]

-- The bytes below `n` for which the multiplication is wrong.
mistakes : ℕ → List ℕ
mistakes zero = []
mistakes (suc n) = if get_nb_set_bits n == ones 8 n then mistakes n else n ∷ mistakes n

no_mistakes : mistakes 256 ≡ []
unfolding mistakes get_nb_set_bits
no_mistakes = refl

right_below : (n : ℕ) → mistakes n ≡ [] → (c : ℕ) → c < n → get_nb_set_bits c ≡ ones 8 c
unfolding mistakes
right_below zero e c h = absurd (omega arith)
right_below (suc n) e c h = elim (Bool-cases (get_nb_set_bits n == ones 8 n)) [
  | inl same ↦
      let fewer : mistakes n ≡ [] = rw same at e in
      elim (below_or_top c n h) [
        | inl below ↦ right_below n fewer c below
        | inr top ↦ subst (λ k. get_nb_set_bits k ≡ ones 8 k) (sym top) ((==_iff _ _).0 same)
      ]
  | inr wrong ↦ let f = rw wrong at e in cc
]

-- For every byte the multiplication counts the binary digits that are 1.
get_nb_set_bits_lem : (c : ℕ) → c < 256 → get_nb_set_bits c ≡ ones 8 c
get_nb_set_bits_lem c h = right_below 256 no_mistakes c h
