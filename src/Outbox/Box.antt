-- ===== src/Outbox/Box.antt =====
-- client_outbox. A line is the list of its bytes, over any type of bytes. The loop of `push` has fuel
-- for one round for each line; the loop of `flush` has fuel for one round for each byte, and one more.
use gempba.Base.{
  ℕ, zero, suc, ◌+◌, ◌-◌, ◌≤◌, ◌≡◌, ◌==◌, if◌then◌else◌, ltb, Bool, true, false, List, [], ◌∷◌,
  ◌++◌, Option, none, some, length, take, drop,
}

pub record Outbox {ℓ} (A : Type ℓ) : Type ℓ where
  pub lines : List (List A)
  pub front_written : ℕ
  pub capacity : ℕ

module _ {ℓ} {A : Type ℓ} where
  -- `erase(next(begin, i))`, called with `i` below the length only
  unfoldable pub erase_at : ℕ → List A → List A
  erase_at i [] = []
  erase_at zero (x ∷ xs) = xs
  erase_at (suc i) (x ∷ xs) = x ∷ erase_at i xs

  -- The constructor: a capacity of 0 is taken as 1.
  unfoldable pub make : ℕ → Outbox A
  make c = record { lines = []; front_written = 0; capacity = if ltb c 1 then 1 else c }

  abbrev pub in_flight : Outbox A → ℕ
  in_flight b = if ltb 0 b.front_written then 1 else 0

-- The loop of `push`: the oldest lines that have not started going out are dropped.
unfoldable pub trim {ℓ} : {A : Type ℓ} → ℕ → ℕ → ℕ → List A → List A
trim zero flying cap xs = xs
trim (suc fuel) flying cap xs =
    let rest = trim fuel flying cap (erase_at flying xs) in
    if ltb cap (length xs - flying) then rest else xs

module _ {ℓ} {A : Type ℓ} where
  unfoldable pub push : List A → Outbox A → Outbox A
  push l b =
      let all = b.lines ++ l ∷ [] in
      record b { lines = trim (length all) (in_flight b) b.capacity all }

  abbrev pub empty : Outbox A → Bool
  empty b = elim b.lines [ [] ↦ true | _ ∷ _ ↦ false ]

module _ {ℓ} {A : Type ℓ} where
  -- What is still to go out: the rest of the line that is partly written, and the other lines.
  abbrev pub concat : List (List A) → List A
  concat [] = []
  concat (l ∷ ls) = l ++ concat ls

  abbrev pub rest_of : ℕ → List (List A) → List A
  rest_of w [] = []
  rest_of w (l ∷ ls) = drop w l ++ concat ls

  abbrev pub pending : Outbox A → List A
  pending b = rest_of b.front_written b.lines

-- A client's connection. `send` is the sender that `flush` is given; `wire` is what the client was
-- sent. As documented: `some n` means that the first `n` bytes of the argument were taken.
pub record Sender {ℓ} (A : Type ℓ) : Type (ℓ + 1) where
  pub State : Type ℓ
  pub wire : State → List A
  pub send : State → List A → Option ℕ × State
  pub send_takes :
      (s : State) (l : List A) (n : ℕ)
      → (send s l).0 ≡ some n
      → (n ≤ length l) × (wire (send s l).1 ≡ wire s ++ take n l)

-- One round of the loop of `flush`: `n` bytes of the front line were taken.
abbrev pub took {ℓ} : {A : Type ℓ} → Outbox A → List A → List (List A) → ℕ → Outbox A
took b l ls n =
    if (b.front_written + n) == length l
    then record b { lines = ls; front_written = 0 }
    else record b { front_written = b.front_written + n }

module _ {ℓ} {A : Type ℓ} (c : Sender A) where
  -- `none` is the end of the fuel.
  unfoldable pub flush : ℕ → Outbox A → c.State → Option (Bool × Outbox A × c.State)
  flush zero b s = none
  flush (suc fuel) b s = elim b.lines [
    | [] ↦ some (true, b, s)
    | l ∷ ls ↦ elim (c.send s (drop b.front_written l)).0 [
      | none ↦ some (false, b, (c.send s (drop b.front_written l)).1)
      | some zero ↦ some (true, b, (c.send s (drop b.front_written l)).1)
      | some (suc n) ↦ flush fuel (took b l ls (suc n)) (c.send s (drop b.front_written l)).1
    ]
  ]
