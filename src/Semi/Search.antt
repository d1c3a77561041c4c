-- ===== src/Semi/Search.antt =====
-- The search of process_available for a worker that can take the returning rank on.
use native.Mathlib.Nat.{mod-lt, mod-eq_of_lt, add-mod_right}
use gempba.Base.{
  ℕ, zero, suc, ◌+◌, ◌-◌, ◌%◌, ◌<◌, ◌≤◌, ◌≡◌, refl, ◌∙◌, ap, subst, true, false, Bool-cases, ltb,
  Option, none, some, ◌⊎◌, inl, inr, arith,
}
use gempba.Semi.Center.{Center, is_candidate, search_from, search}

module _ (offset : ℕ) (c : Center) where
  abbrev Found : Option ℕ → Type 0
  Found o = (r : ℕ) × (o ≡ some r) × (r < c.world_size) × (is_candidate c r ≡ true)

  abbrev Nowhere : ℕ → ℕ → Option ℕ → Type 0
  Nowhere rounds i o =
      (o ≡ none)
      × ((k : ℕ) → i ≤ k → k < i + rounds → is_candidate c ((k + offset) % c.world_size) ≡ false)

  later :
      (i rounds : ℕ)
      → is_candidate c ((i + offset) % c.world_size) ≡ false
      → ((k : ℕ)
          → i + 1 ≤ k
          → k < (i + 1) + rounds
          → is_candidate c ((k + offset) % c.world_size) ≡ false)
      → (k : ℕ) → i ≤ k
      → k < i + suc rounds
      → is_candidate c ((k + offset) % c.world_size) ≡ false
  later i rounds first rest k low high = elim (Bool-cases (ltb i k)) [
    | inl after ↦ rest k (ground arith) (omega arith)
    | inr same ↦
        let e : i ≡ k = ground arith in
        subst (λ m. is_candidate c ((m + offset) % c.world_size) ≡ false) e first
  ]

  search_from_lem :
      (rounds i : ℕ)
      → 0 < c.world_size
      → Found (search_from rounds i offset c) ⊎ Nowhere rounds i (search_from rounds i offset c)
  unfolding search_from
  search_from_lem zero i h = inr (refl, λ k low high. absurd (omega arith))
  search_from_lem (suc rounds) i h =
      elim (Bool-cases (is_candidate c ((i + offset) % c.world_size))) [
        | inl here ↦ rw here (inl ((i + offset) % c.world_size, refl, mod-lt (i + offset) h, here))
        | inr not_here ↦ rw not_here (elim (search_from_lem rounds (i + 1) h) [
          | inl found ↦ inl found
          | inr (e, all) ↦ inr (e, later i rounds not_here all)
        ])
      ]

module _ (offset n : ℕ) where
  -- Each rank has its round.
  round_of : (r : ℕ) → r < n → offset ≤ n → (k : ℕ) × (k < n) × ((k + offset) % n ≡ r)
  round_of r h fits = elim (Bool-cases (ltb r offset)) [
    | inl low ↦
        let e : (r + n - offset) + offset ≡ r + n = ground arith in
        (r + n - offset, ground arith, ap (λ m. m % n) e ∙ add-mod_right r n ∙ mod-eq_of_lt h)
    | inr high ↦
        let e : (r - offset) + offset ≡ r = ground arith in
        (r - offset, ground arith, ap (λ m. m % n) e ∙ mod-eq_of_lt h)
  ]

pub search_lem :
    (offset : ℕ) (c : Center)
    → 0 < c.world_size
    → offset ≤ c.world_size
    → ((r : ℕ) × (search offset c ≡ some r) × (r < c.world_size) × (is_candidate c r ≡ true))
      ⊎ ((search offset c ≡ none) × ((r : ℕ) → r < c.world_size → is_candidate c r ≡ false))
unfolding search
search_lem offset c h fits = elim (search_from_lem offset c c.world_size 0 h) [
  | inl found ↦ inl found
  | inr (e, all) ↦ inr (
    e,
    λ r high.
        let (k, below, same) = round_of offset c.world_size r high fits in
        subst (λ m. is_candidate c m ≡ false) same (all k (omega arith) (omega arith)),
  )
]
