-- ===== src/Base/Messages.antt =====
-- A message to each rank of a range, and what one rank gets of all that is sent.
use mathlib.Core.List.{append_assoc}
use gempba.Base.{
  ℕ, zero, suc, ◌+◌, ◌≡◌, refl, sym, ◌∙◌, ap, ◌==◌, ==_iff, ltb, leb, if◌then◌else◌, Bool, true,
  false, Bool-cases, ◌&&◌, List, [], ◌∷◌, ◌++◌, inl, inr, arith,
}

-- `for (v_rank = r; v_rank < r + n; v_rank++)`: one message to each
abbrev pub to_ranks {ℓ} : {O : Type ℓ} → ℕ → ℕ → (ℕ → O) → List O
to_ranks r zero f = []
to_ranks r (suc n) f = f r ∷ to_ranks (r + 1) n f

-- `get` is what is of interest in one message.
abbrev pub collect {ℓ κ} : {O : Type ℓ} {X : Type κ} → (O → List X) → List O → List X
collect get [] = []
collect get (o ∷ os) = get o ++ collect get os

pub collect-append {ℓ κ} :
    {O : Type ℓ} {X : Type κ} (get : O → List X) (xs ys : List O)
    → collect get (xs ++ ys) ≡ collect get xs ++ collect get ys
collect-append get [] ys = refl
collect-append get (x ∷ xs) ys =
    ap (λ l. get x ++ l) (collect-append get xs ys)
    ∙ sym (append_assoc (get x) (collect get xs) (collect get ys))

-- Of the `m` ranks from `a` on, is `r` one?
abbrev pub within : ℕ → ℕ → ℕ → Bool
within r a m = leb a r && ltb r (a + m)

-- The loop reaches each rank of its range once.
pub collect-to_ranks {ℓ κ} :
    {O : Type ℓ} {X : Type κ} (r : ℕ) (get : O → List X) (f : ℕ → O) (x : ℕ → X)
    → ((q : ℕ) → get (f q) ≡ (if q == r then x q ∷ [] else []))
    → (m a : ℕ) → collect get (to_ranks a m f) ≡ (if within r a m then x r ∷ [] else [])
collect-to_ranks r get f x h zero a = let out : within r a 0 ≡ false = ground arith in rw out refl
collect-to_ranks r get f x h (suc m) a = elim (Bool-cases (a == r)) [
  | inl here ↦
      let e : a ≡ r = (==_iff a r).0 here in
      let now : within r a (suc m) ≡ true = ground arith in
      let past : within r (a + 1) m ≡ false = ground arith in
      rw (now, h a, here, collect-to_ranks r get f x h m (a + 1), past) (ap (λ q. x q ∷ []) e)
  | inr elsewhere ↦
      let same : within r a (suc m) ≡ within r (a + 1) m = ground arith in
      rw (same, h a, elsewhere, collect-to_ranks r get f x h m (a + 1)) refl
]

pub collect-to_no_ranks {ℓ κ} :
    {O : Type ℓ} {X : Type κ} (get : O → List X) (f : ℕ → O)
    → ((q : ℕ) → get (f q) ≡ [])
    → (m a : ℕ) → collect get (to_ranks a m f) ≡ []
collect-to_no_ranks get f h zero a = refl
collect-to_no_ranks get f h (suc m) a = rw (h a) (collect-to_no_ranks get f h m (a + 1))
