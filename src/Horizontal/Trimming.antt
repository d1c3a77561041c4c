-- ===== src/Horizontal/Trimming.antt =====
-- What try_correct_root leaves of the levels: those at the top with nothing pending go.
use gempba.Base.{
  ℕ, zero, suc, ◌+◌, ◌<◌, ◌≡◌, refl, sym, ◌∙◌, subst, ◌==◌, ==_iff, leb, if◌then◌else◌, true, false,
  Bool-cases, ◌||◌, List, [], ◌∷◌, length, Option, some, inl, inr, arith,
}
use gempba.Links.Store.{Store}
use gempba.Horizontal.Roots.{hand_down, lower, try_correct_root}
use gempba.Horizontal.Lowering.{lower_step, lower_leaf}
use gempba.Horizontal.Agreement.{lower_idle}
use gempba.Horizontal.Spine.{Levels, Spine-leaf, IsHeld-get_root, IsHeld}
use gempba.Horizontal.Parting.{hand_down-IsHeld}

abbrev pub skip_idle : ℕ → Levels → ℕ × Levels
skip_idle r [] = (r, [])
skip_idle r ((n, []) ∷ levels) = skip_idle n levels
skip_idle r ((n, c ∷ cs) ∷ levels) = (r, (n, c ∷ cs) ∷ levels)

abbrev Trimmed : ℕ → ℕ → ℕ → Levels → Option Store → Type 0
Trimmed t p r levels o =
    (s : Store) × (o ≡ some s) × IsHeld t p (skip_idle r levels).0 (skip_idle r levels).1 s

module _ (t p : ℕ) where
  pub inner_apart :
      (r n : ℕ) (pending : List ℕ) (levels : Levels) (s : Store)
      → IsHeld t p r ((n, pending) ∷ levels) s
      → (r == p) ≡ false
  inner_apart r n pending levels s h = elim (Bool-cases (r == p)) [
    | inl same ↦
        let leaf =
          subst (λ x. (s.link x).children ≡ []) (sym ((==_iff r p).0 same))
            (Spine-leaf s.link t p r ((n, pending) ∷ levels) h.path) in
        let more = h.path.1 in cc
    | inr other ↦ other
  ]

  stops :
      (fuel r n : ℕ) (levels : Levels) (s : Store)
      → IsHeld t p r ((n, []) ∷ levels) s
      → ((n == p) || leb 2 (length ((hand_down r n s).link n).children)) ≡ true
      → lower (suc fuel) r p s ≡ some (hand_down r n s)
  stops fuel r n levels s h stop = lower_step p fuel r n s h.path.1 ∙ rw stop refl

  lower-Trimmed :
      (levels : Levels) (fuel r : ℕ) (s : Store)
      → length levels < fuel
      → IsHeld t p r levels s
      → Trimmed t p r levels (lower fuel r p s)
  lower-Trimmed levels zero r s e h = elim e [ ]
  lower-Trimmed [] (suc fuel) r s e h = (s, lower_leaf p fuel r s h.path.2, h)
  lower-Trimmed ((n, c ∷ cs) ∷ levels) (suc fuel) r s e h =
      (s, lower_idle fuel r p n c cs s h.path.1, h)
  lower-Trimmed ((n, []) ∷ []) (suc fuel) r s e h =
      let g = hand_down-IsHeld t p r n [] s h in
      (hand_down r n s, stops fuel r n [] s h (ground (arith, g.path.0)), g)
  lower-Trimmed ((n, []) ∷ (m, x ∷ xs) ∷ levels) (suc fuel) r s e h =
      let g = hand_down-IsHeld t p r n ((m, x ∷ xs) ∷ levels) s h in
      (hand_down r n s, stops fuel r n ((m, x ∷ xs) ∷ levels) s h (ground (arith, g.path.1)), g)
  lower-Trimmed ((n, []) ∷ (m, []) ∷ levels) (suc fuel) r s e h =
      let g = hand_down-IsHeld t p r n ((m, []) ∷ levels) s h in
      let (s', ends, held) =
        lower-Trimmed ((m, []) ∷ levels) fuel n (hand_down r n s) (omega arith) g in
      (
        s',
        lower_step p fuel r n s h.path.1
            ∙ rw (inner_apart n m [] levels (hand_down r n s) g, g.path.1) ends,
        held,
      )

  try_correct_root_step :
      (fuel r n : ℕ) (pending : List ℕ) (levels : Levels) (s : Store)
      → IsHeld t p r ((n, pending) ∷ levels) s
      → try_correct_root fuel p s
        ≡ (if leb 2 (length (n ∷ pending)) then some s else lower fuel r p s)
  unfolding try_correct_root
  try_correct_root_step fuel r n pending levels s h =
      rw (IsHeld-get_root h, try_correct_root, inner_apart r n pending levels s h, h.path.1) refl

  -- From a root with children the trimmed root is found, within a round for each level and one more.
  pub try_correct_root-Trimmed :
      (fuel r n : ℕ) (pending : List ℕ) (levels : Levels) (s : Store)
      → length levels + 1 < fuel
      → IsHeld t p r ((n, pending) ∷ levels) s
      → Trimmed t p r ((n, pending) ∷ levels) (try_correct_root fuel p s)
  try_correct_root-Trimmed fuel r n [] levels s e h =
      let (s', ends, held) = lower-Trimmed ((n, []) ∷ levels) fuel r s (omega arith) h in
      (s', try_correct_root_step fuel r n [] levels s h ∙ ends, held)
  try_correct_root-Trimmed fuel r n (c ∷ cs) levels s e h =
      (s, try_correct_root_step fuel r n (c ∷ cs) levels s h ∙ ground arith, h)
