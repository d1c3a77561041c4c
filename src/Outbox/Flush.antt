-- ===== src/Outbox/Flush.antt =====
-- What `flush` sends.
use gempba.Base.{
  ℕ, zero, suc, ◌+◌, ◌<◌, ◌≤◌, ◌≡◌, refl, sym, ap, ◌∙◌, ◌==◌, if◌then◌else◌, Bool, true, false,
  List, [], ◌∷◌, ◌⊎◌, inl, inr, ◌++◌, none, some, length, take, drop, arith, length-append,
  length-drop, take-append-drop, Bool-cases, Option-cases,
}
use mathlib.Core.List.{append_assoc, append-nil}
use native.Mathlib.Nat.{zero-add, suc-add}
use gempba.Outbox.Box.{Outbox, Sender, flush, took, pending, concat, rest_of}

module _ {ℓ} {A : Type ℓ} where
  drop-nil : (n : ℕ) → drop {A = A} n [] ≡ []
  drop-nil zero = refl
  drop-nil (suc n) = refl

  take_all : (n : ℕ) (xs : List A) → length xs ≤ n → take n xs ≡ xs
  take_all zero [] h = refl
  take_all zero (x ∷ xs) h = elim h [ ]
  take_all (suc n) [] h = refl
  take_all (suc n) (x ∷ xs) h = ap (◌∷◌ x) (take_all n xs (omega arith))

  rest_of-zero : (ls : List (List A)) → rest_of 0 ls ≡ concat ls
  rest_of-zero [] = refl
  rest_of-zero (l ∷ ls) = refl

  drop-drop : (m n : ℕ) (xs : List A) → drop (m + n) xs ≡ drop n (drop m xs)
  drop-drop zero n xs = rw zero-add
  drop-drop (suc m) n [] = rw suc-add (sym (drop-nil n))
  drop-drop (suc m) n (x ∷ xs) = rw suc-add (drop-drop m n xs)

  length-take_eq : (n : ℕ) (xs : List A) → n ≤ length xs → length (take n xs) ≡ n
  length-take_eq zero xs h = refl
  length-take_eq (suc n) [] h = elim h [ ]
  length-take_eq (suc n) (x ∷ xs) h = ap suc (length-take_eq n xs (omega arith))

  abbrev after_round : ℕ → ℕ → List A → List (List A) → List A
  after_round w n l ls = if (w + n) == length l then rest_of 0 ls else rest_of (w + n) (l ∷ ls)

  abbrev pub box : List (List A) → ℕ → ℕ → Outbox A
  box ls w k = record { lines = ls; front_written = w; capacity = k }

  pending-took :
      (w n k : ℕ) (l : List A) (ls : List (List A))
      → pending (took (box (l ∷ ls) w k) l ls n) ≡ after_round w n l ls
  pending-took w n k l ls = elim (Bool-cases ((w + n) == length l)) [
    | inl whole ↦ rw whole
    | inr more ↦ rw more
  ]

  -- The bytes that were taken and those that are left make up those that were to go out.
  round_lists :
      (w n : ℕ) (l : List A) (ls : List (List A))
      → n ≤ length (drop w l)
      → take n (drop w l) ++ after_round w n l ls ≡ rest_of w (l ∷ ls)
  round_lists w n l ls h = elim (Bool-cases ((w + n) == length l)) [
    | inl whole ↦
        rw (whole, rest_of-zero ls)
          (ap (λ t. t ++ concat ls) (take_all n (drop w l) (ground (arith, length-drop w l))))
    | inr more ↦
        rw (more, drop-drop w n l)
          (sym (append_assoc (take n (drop w l)) (drop n (drop w l)) (concat ls))
            ∙ ap (λ t. t ++ concat ls) (take-append-drop n (drop w l)))
  ]

-- What holds when `flush` returns: on `false` the connection has failed; on `true` nothing is left, or
-- the last call of the sender took nothing; and then what the client was sent, followed by what is
-- still to go out, is what it was before.
module _ {ℓ} {A : Type ℓ} (c : Sender A) where
  abbrev pub Flushed : Outbox A → c.State → Bool × Outbox A × c.State → Type ℓ
  Flushed b s (true, b', s') =
      (c.wire s' ++ pending b' ≡ c.wire s ++ pending b)
      × ((b'.lines ≡ []) ⊎ ((t : c.State) × (m : List A) × (c.send t m ≡ (some 0, s'))))
  Flushed b s (false, b', s') =
      (t : c.State) × (m : List A) × (c.send t m ≡ (none, s'))
      × (c.wire t ++ pending b' ≡ c.wire s ++ pending b)

  -- One round that took `n` bytes: they went from what is to go out onto the wire.
  round_keeps :
      (l : List A) (ls : List (List A)) (w k : ℕ) (s : c.State) (n : ℕ)
      → (c.send s (drop w l)).0 ≡ some n
      → c.wire (c.send s (drop w l)).1 ++ pending (took (box (l ∷ ls) w k) l ls n)
        ≡ c.wire s ++ rest_of w (l ∷ ls)
  round_keeps l ls w k s n e =
      let (fits, sent) = c.send_takes s (drop w l) n e in
      rw
        (
          sent,
          append_assoc (c.wire s) (take n (drop w l)) (pending (took (box (l ∷ ls) w k) l ls n)),
        )
        (ap (◌++◌ (c.wire s))
          (ap (◌++◌ (take n (drop w l))) (pending-took w n k l ls) ∙ round_lists w n l ls fits))

  module _ (l : List A) (ls : List (List A)) (w k : ℕ) (s : c.State) where
    abbrev sent_to : c.State
    sent_to = (c.send s (drop w l)).1

    flush_failed :
        (fuel : ℕ)
        → (c.send s (drop w l)).0 ≡ none
        → flush c (suc fuel) (box (l ∷ ls) w k) s ≡ some (false, box (l ∷ ls) w k, sent_to)
    unfolding flush
    flush_failed fuel e = rw (e, flush)

    flush_blocked :
        (fuel : ℕ)
        → (c.send s (drop w l)).0 ≡ some 0
        → flush c (suc fuel) (box (l ∷ ls) w k) s ≡ some (true, box (l ∷ ls) w k, sent_to)
    unfolding flush
    flush_blocked fuel e = rw (e, flush)

    flush_sent :
        (fuel n : ℕ)
        → (c.send s (drop w l)).0 ≡ some (suc n)
        → flush c (suc fuel) (box (l ∷ ls) w k) s
          ≡ flush c fuel (took (box (l ∷ ls) w k) l ls (suc n)) sent_to
    unfolding flush
    flush_sent fuel n e = rw (e, flush)

    shorter :
        (n : ℕ)
        → (c.send s (drop w l)).0 ≡ some n
        → n + length (pending (took (box (l ∷ ls) w k) l ls n)) ≡ length (rest_of w (l ∷ ls))
    shorter n e =
        let (fits, sent) = c.send_takes s (drop w l) n e in
        rw (pending-took w n k l ls) (
          omega (
            arith,
            ap length (round_lists w n l ls fits),
            length-append (take n (drop w l)) (after_round w n l ls),
            length-take_eq n (drop w l) fits,
          ))

  -- What a round kept, and then the rest of the loop.
  Flushed-trans :
      (b b' : Outbox A) (s s' : c.State) (r : Bool × Outbox A × c.State)
      → c.wire s' ++ pending b' ≡ c.wire s ++ pending b
      → Flushed b' s' r
      → Flushed b s r
  Flushed-trans b b' s s' (true, b'', s'') e (kept, why) = (kept ∙ e, why)
  Flushed-trans b b' s s' (false, b'', s'') e (t, m, failed, kept) = (t, m, failed, kept ∙ e)

  flush-box :
      (fuel : ℕ) (ls : List (List A)) (w k : ℕ) (s : c.State)
      → length (rest_of w ls) < fuel
      → (r : Bool × Outbox A × c.State) × (flush c fuel (box ls w k) s ≡ some r)
        × Flushed (box ls w k) s r
  unfolding flush
  flush-box zero ls w k s h = elim h [ ]
  flush-box (suc fuel) [] w k s h = ((true, box [] w k, s), refl, (refl, inl refl))
  flush-box (suc fuel) (l ∷ ls) w k s h = elim (Option-cases (c.send s (drop w l)).0) [
    | inl e ↦ (
      (false, box (l ∷ ls) w k, (c.send s (drop w l)).1),
      flush_failed l ls w k s fuel e,
      (s, drop w l, (λ i. (e i, (c.send s (drop w l)).1)), refl),
    )
    | inr (zero, e) ↦ (
      (true, box (l ∷ ls) w k, (c.send s (drop w l)).1),
      flush_blocked l ls w k s fuel e,
      (
        ap (λ t. t ++ rest_of w (l ∷ ls))
            ((c.send_takes s (drop w l) 0 e).1 ∙ append-nil (c.wire s)),
        inr (s, drop w l, λ i. (e i, (c.send s (drop w l)).1)),
      ),
    )
    | inr (suc n, e) ↦
        let b' = took (box (l ∷ ls) w k) l ls (suc n) in
        let s' = (c.send s (drop w l)).1 in
        let (r, runs, kept) =
          flush-box fuel b'.lines b'.front_written b'.capacity s'
            (omega (arith, shorter l ls w k s (suc n) e)) in
        (
          r,
          flush_sent l ls w k s fuel n e ∙ runs,
          Flushed-trans (box (l ∷ ls) w k) b' s s' r (round_keeps l ls w k s (suc n) e) kept,
        )
  ]

  -- With fuel for each byte that is to go out, and one round more, `flush` returns. On `true` nothing
  -- is left or the sender's last call took nothing, on `false` its last call failed. What the client was
  -- sent (before that failed call) followed by what is still to go out is what it was before `flush`, so
  -- no byte is lost, sent twice or sent out of order.
  pub flush_lem :
      (fuel : ℕ) (b : Outbox A) (s : c.State)
      → length (pending b) < fuel
      → (r : Bool × Outbox A × c.State) × (flush c fuel b s ≡ some r) × Flushed b s r
  flush_lem fuel b s h = flush-box fuel b.lines b.front_written b.capacity s h
