-- ===== src/Outbox/Push.antt =====
-- What `push` keeps and what it drops.
use gempba.Base.{
  ℕ, zero, suc, ◌+◌, ◌-◌, ◌<◌, ◌≤◌, ◌≡◌, refl, sym, ap, ◌∙◌, if◌then◌else◌, ltb, true, List, [],
  ◌∷◌, inl, inr, ◌++◌, length, take, drop, arith, length-append, length-drop, Bool-cases, leb,
}
use mathlib.Core.List.{append_assoc}
use gempba.Outbox.Box.{Outbox, erase_at, in_flight, trim, push}

-- A line in flight stands at the front and is not sent whole; at most `capacity` others wait.
abbrev pub Flying {ℓ} : {A : Type ℓ} → ℕ → List (List A) → Type 0
Flying zero ls = Unit
Flying (suc w) [] = ⊥
Flying (suc w) (l ∷ ls) = suc w < length l

pub record IsValid {ℓ} {A : Type ℓ} (b : Outbox A) : Type 0 where
  pub room : 1 ≤ b.capacity
  pub bounded : length b.lines ≤ b.capacity + in_flight b
  pub flying : Flying b.front_written b.lines

module _ {ℓ} {A : Type ℓ} where
  erase_at-append :
      (pre : List A) (x : A) (xs : List A) → erase_at (length pre) (pre ++ x ∷ xs) ≡ pre ++ xs
  unfolding erase_at
  erase_at-append [] x xs = refl
  erase_at-append (p ∷ pre) x xs = ap (◌∷◌ p) (erase_at-append pre x xs)

  -- The newest `k` elements.
  abbrev pub newest : ℕ → List A → List A
  newest k xs = drop (length xs - k) xs

  newest_step : (k : ℕ) (x : A) (xs : List A) → k ≤ length xs → newest k (x ∷ xs) ≡ newest k xs
  newest_step k x xs h = let e : suc (length xs) - k ≡ suc (length xs - k) = omega arith in rw e

  newest_all : (k : ℕ) (xs : List A) → length xs ≤ k → newest k xs ≡ xs
  newest_all k xs h = let e : length xs - k ≡ 0 = omega arith in rw e

  count_after : (pre xs : List A) → length (pre ++ xs) - length pre ≡ length xs
  count_after pre xs = omega (arith, length-append pre xs)

  -- The loop leaves the first lines alone and keeps the newest `k` of the others.
  trim_lem :
      (fuel k : ℕ) (pre xs : List A)
      → length xs ≤ fuel
      → trim fuel (length pre) k (pre ++ xs) ≡ pre ++ newest k xs
  unfolding trim
  trim_lem zero k pre [] h = ap (◌++◌ pre) (sym (newest_all k [] (omega arith)))
  trim_lem zero k pre (x ∷ xs) h = elim h [ ]
  trim_lem (suc fuel) k pre [] h = rw (count_after pre []) (ground arith)
  trim_lem (suc fuel) k pre (x ∷ xs) h =
      rw (count_after pre (x ∷ xs)) (elim (Bool-cases (ltb k (suc (length xs)))) [
        | inl more ↦
            rw (more, erase_at-append pre x xs)
              (trim_lem fuel k pre xs (omega arith)
                ∙ ap (◌++◌ pre) (sym (newest_step k x xs (ground arith))))
        | inr done ↦ rw (done, newest_all k (x ∷ xs) (ground arith))
      ])

abbrev fly : ℕ → ℕ
fly w = if ltb 0 w then 1 else 0

fly_suc : (w : ℕ) → ltb 0 (suc w) ≡ true
fly_suc w = ground arith

push_lines {ℓ} :
    {A : Type ℓ} (w k : ℕ) (l : List A) (ls : List (List A))
    → Flying w ls
    → trim (length (ls ++ l ∷ [])) (fly w) k (ls ++ l ∷ [])
      ≡ take (fly w) ls ++ newest k (drop (fly w) ls ++ l ∷ [])
push_lines zero k l ls h = trim_lem (length (ls ++ l ∷ [])) k [] (ls ++ l ∷ []) (omega arith)
push_lines (suc w) k l [] h = elim h [ ]
push_lines (suc w) k l (x ∷ xs) h =
    rw (fly_suc w) (trim_lem (suc (length (xs ++ l ∷ []))) k (x ∷ []) (xs ++ l ∷ []) (omega arith))

-- `push` keeps what is in flight, and of the other lines with the new one the newest `capacity`: the
-- loop drops the oldest whole lines and no others, and changes nothing else.
pub push_lem {ℓ} :
    {A : Type ℓ} (l : List A) (b : Outbox A)
    → IsValid b
    → let f = in_flight b in
      push l b ≡ record b { lines = take f b.lines ++ newest b.capacity (drop f b.lines ++ l ∷ []) }
unfolding push
push_lem l b v i = record b { lines = push_lines b.front_written b.capacity l b.lines v.flying i }

-- The newest elements of a list end it.
newest-snoc {ℓ} :
    {A : Type ℓ} (k : ℕ) (xs : List A) (x : A)
    → 1 ≤ k
    → (ys : List A) × (newest k (xs ++ x ∷ []) ≡ ys ++ x ∷ [])
newest-snoc k [] x h = ([], newest_all k (x ∷ []) (omega arith))
newest-snoc k (y ∷ xs) x h = elim (Bool-cases (leb k (length (xs ++ x ∷ [])))) [
  | inl more ↦
      let (ys, e) = newest-snoc k xs x h in (ys, newest_step k y (xs ++ x ∷ []) (ground arith) ∙ e)
  | inr fits ↦ (y ∷ xs, newest_all k (y ∷ xs ++ x ∷ []) (ground arith))
]

length-take_le {ℓ} : {A : Type ℓ} (n : ℕ) (xs : List A) → length (take n xs) ≤ n
length-take_le zero xs = omega arith
length-take_le (suc n) [] = omega arith
length-take_le (suc n) (x ∷ xs) = omega (arith, length-take_le n xs)

Flying-take {ℓ} :
    {A : Type ℓ} (w : ℕ) (ls rest : List (List A))
    → Flying w ls
    → Flying w (take (fly w) ls ++ rest)
Flying-take zero ls rest h = tt
Flying-take (suc w) [] rest h = elim h [ ]
Flying-take (suc w) (l ∷ ls) rest h = rw (fly_suc w) h

-- After `push` the outbox is valid again, and the new line is in it, behind all others.
push-IsValid {ℓ} :
    {A : Type ℓ} (l : List A) (b : Outbox A)
    → IsValid b
    → IsValid (push l b) × ((ls : List (List A)) × ((push l b).lines ≡ ls ++ l ∷ []))
push-IsValid {A} l b v = rw (push_lem l b v) (
  record {
    room = v.room;
    bounded = omega (
      arith,
      length-append (take f b.lines) (newest b.capacity rest),
      length-take_le f b.lines,
      length-drop (length rest - b.capacity) rest,
    );
    flying = Flying-take b.front_written b.lines (newest b.capacity rest) v.flying;
  },
  let (ys, e) = newest-snoc b.capacity (drop f b.lines) l v.room in
      (
        take f b.lines ++ ys,
        ap (◌++◌ (take f b.lines)) e ∙ sym (append_assoc (take f b.lines) ys (l ∷ [])),
      ),
)
  where
    f : ℕ
    f = in_flight b

    rest : List (List A)
    rest = drop (in_flight b) b.lines ++ l ∷ []
