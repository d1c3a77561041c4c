-- ===== src/Outbox/Examples.antt =====
-- An outbox with one line in flight, and a client that takes two bytes at a time.
use gempba.Base.{
  ℕ, zero, suc, ◌≤◌, ◌≡◌, refl, ap, Bool, true, List, [], ◌∷◌, ◌++◌, some, length, take, arith,
}
use gempba.Outbox.Box.{Outbox, Sender, push, flush, trim, erase_at}
use gempba.Outbox.Push.{IsValid, push_lem}
use gempba.Outbox.Flush.{Flushed, flush_lem}

abbrev waiting : Outbox ℕ
waiting = record {
  lines = (1 ∷ 2 ∷ 3 ∷ []) ∷ (4 ∷ []) ∷ (5 ∷ []) ∷ [];
  front_written = 1;
  capacity = 2;
}

waiting-IsValid : IsValid waiting
waiting-IsValid = record { room = omega arith; bounded = omega arith; flying = omega arith }

-- The oldest line that has not started going out is dropped.
push_drops : (push (6 ∷ []) waiting).lines ≡ (1 ∷ 2 ∷ 3 ∷ []) ∷ (5 ∷ []) ∷ (6 ∷ []) ∷ []
unfolding push trim erase_at
push_drops = refl

push_lem_example :
    push (6 ∷ []) waiting ≡ record waiting { lines = (1 ∷ 2 ∷ 3 ∷ []) ∷ (5 ∷ []) ∷ (6 ∷ []) ∷ [] }
push_lem_example = push_lem (6 ∷ []) waiting waiting-IsValid

length-take_le_length : (n : ℕ) (l : List ℕ) → length (take n l) ≤ length l
length-take_le_length zero l = omega arith
length-take_le_length (suc n) [] = omega arith
length-take_le_length (suc n) (x ∷ l) = omega (arith, length-take_le_length n l)

take-length-take : (n : ℕ) (l : List ℕ) → take n l ≡ take (length (take n l)) l
take-length-take zero l = refl
take-length-take (suc n) [] = refl
take-length-take (suc n) (x ∷ l) = ap (◌∷◌ x) (take-length-take n l)

taken : (l : List ℕ) (n : ℕ) → some (length (take 2 l)) ≡ some n → length (take 2 l) ≡ n
taken l n e = cc

abbrev two_bytes : Sender ℕ
two_bytes = record {
  State = List ℕ;
  wire = λ s. s;
  send = λ s l. (some (length (take 2 l)), s ++ take 2 l);
  send_takes = two_bytes_law;
}
  where
    two_bytes_law :
        (s l : List ℕ) (n : ℕ)
        → some (length (take 2 l)) ≡ some n
        → (n ≤ length l) × (s ++ take 2 l ≡ s ++ take n l)
    two_bytes_law s l n e =
        rw (← taken l n e) (length-take_le_length 2 l, ap (◌++◌ s) (take-length-take 2 l))

flush_lem_example :
    (r : Bool × Outbox ℕ × List ℕ) × (flush two_bytes 5 waiting (9 ∷ []) ≡ some r)
    × Flushed two_bytes waiting (9 ∷ []) r
flush_lem_example = flush_lem two_bytes 5 waiting (9 ∷ []) (omega arith)

flush_runs :
    flush two_bytes 5 waiting (9 ∷ [])
    ≡ some (true, record { lines = []; front_written = 0; capacity = 2 }, 9 ∷ 2 ∷ 3 ∷ 4 ∷ 5 ∷ [])
unfolding flush
flush_runs = refl
