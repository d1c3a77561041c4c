-- ===== src/Score/Best.antt =====
-- The node manager keeps the best of what it is offered.
use gempba.Base.{
  ◌≡◌, refl, sym, ◌∙◌, ap, true, false, Bool-cases, List, [], ◌∷◌, ◌++◌, All, All-imp, ◌⊎◌, inl,
  inr,
}
use gempba.Score.Defs.{Floats}
use gempba.Score.Order.{
  IsInt, HoldsIntegers, Comparable, value, better, should_update_lem, better_trans,
  not_better_trans,
}
use gempba.Score.Manager.{NodeManager, Update, run, offered, taken, apply_taken, apply_refused}

module _ {A P : Type 0} (fl : Floats) (empty_packet : P) where
  -- One of the updates is the first that no other one beats, and beats all before it and what there was.
  abbrev pub Best : NodeManager A P → List (Update A P) → NodeManager A P → Type 0
  Best m us m' =
      (xs : List (Update A P)) × (u : Update A P) × (ys : List (Update A P)) × (us ≡ xs ++ u ∷ ys)
      × (m' ≡ taken fl empty_packet u m)
      × (better m.goal (value m.score) (value (offered fl empty_packet u)) ≡ true)
      × All
          (λ x.
            better m.goal (value (offered fl empty_packet x)) (value (offered fl empty_packet u))
            ≡ true)
          xs
      × All
          (λ y.
            better m.goal (value (offered fl empty_packet u)) (value (offered fl empty_packet y))
            ≡ false)
          ys

  abbrev pub Kept : NodeManager A P → List (Update A P) → NodeManager A P → Type 0
  Kept m us m' =
      (m' ≡ m)
      × All (λ u. better m.goal (value m.score) (value (offered fl empty_packet u)) ≡ false) us

  -- The scores that are offered and the manager's are of integer types, and any two can be compared as integers:
  -- they are all of one type, or the long doubles hold the integers exactly.
  abbrev pub Fits : NodeManager A P → List (Update A P) → Type 0
  Fits m us =
      IsInt m.score.kind
      × All (λ u. IsInt (offered fl empty_packet u).kind) us
      × (All (λ u. (offered fl empty_packet u).kind ≡ m.score.kind) us ⊎ HoldsIntegers fl)

  Fits-taken :
      (m : NodeManager A P) (u : Update A P) (us : List (Update A P))
      → Fits m (u ∷ us)
      → Fits (taken fl empty_packet u m) us
  Fits-taken m u us (int, (new, ints), inl (same, rest)) =
      (new, ints, inl (All-imp (λ v e. e ∙ sym same) us rest))
  Fits-taken m u us (int, (new, ints), inr exact) = (new, ints, inr exact)

  Fits-rest :
      (m : NodeManager A P) (u : Update A P) (us : List (Update A P)) → Fits m (u ∷ us) → Fits m us
  Fits-rest m u us (int, (new, ints), inl (same, rest)) = (int, ints, inl rest)
  Fits-rest m u us (int, (new, ints), inr exact) = (int, ints, inr exact)

  Fits-Comparable :
      (m : NodeManager A P) (u : Update A P) (us : List (Update A P))
      → Fits m (u ∷ us)
      → Comparable fl m.score (offered fl empty_packet u)
  Fits-Comparable m u us (int, (new, ints), inl (same, rest)) = inl same
  Fits-Comparable m u us (int, (new, ints), inr exact) = inr exact

  -- After any updates with scores of integer types, all of the manager's type or, where the long doubles hold all
  -- integers of 64 bits exactly, of any: either no score offered was better and nothing has changed, or
  -- the manager holds the score and the result of one update, which beats the first score and every
  -- update before it, and which no update behind it beats.
  pub run_lem :
      (us : List (Update A P)) (m : NodeManager A P)
      → Fits m us
      → Kept m us (run fl empty_packet us m) ⊎ Best m us (run fl empty_packet us m)
  unfolding run
  run_lem [] m fits = inl (refl, tt)
  run_lem (u ∷ us) m fits =
      let old = value m.score in
      let new = value (offered fl empty_packet u) in
      let decides =
        should_update_lem fl m.goal m.score (offered fl empty_packet u) fits.0 fits.1.0
          (Fits-Comparable m u us fits) in
      elim (Bool-cases (better m.goal old new)) [
        | inl wins ↦
            let step = apply_taken fl empty_packet u m (decides ∙ wins) in
            elim (run_lem us (taken fl empty_packet u m) (Fits-taken m u us fits)) [
              | inl (same, none_better) ↦
                  rw (run, step) (inr ([], u, us, refl, same, wins, tt, none_better))
              | inr (xs, v, ys, split, final, beats, before, behind) ↦
                  rw (run, step)
                    (inr (
                      u ∷ xs,
                      v,
                      ys,
                      ap (λ l. u ∷ l) split,
                      final,
                      better_trans m.goal old new (value (offered fl empty_packet v)) wins beats,
                      (beats, before),
                      behind,
                    ))
            ]
        | inr loses ↦
            let step = apply_refused fl empty_packet u m (decides ∙ loses) in
            elim (run_lem us m (Fits-rest m u us fits)) [
              | inl (same, none_better) ↦ rw (run, step) (inl (same, (loses, none_better)))
              | inr (xs, v, ys, split, final, beats, before, behind) ↦
                  rw (run, step)
                    (inr (
                      u ∷ xs,
                      v,
                      ys,
                      ap (λ l. u ∷ l) split,
                      final,
                      beats,
                      (
                        not_better_trans m.goal old new (value (offered fl empty_packet v)) loses
                            beats,
                        before,
                      ),
                      behind,
                    ))
            ]
      ]
