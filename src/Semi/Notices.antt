-- ===== src/Semi/Notices.antt =====
-- What a worker is told by the center alone: scores, and the ranks that it may send tasks to.
use gempba.Base.{
  last, last-append, ℕ, zero, suc, ◌+◌, ◌<◌, ◌≡◌, refl, sym, ◌∙◌, ap, if◌then◌else◌, Bool, true,
  false, List, [], ◌∷◌, ◌++◌, none, some, length, length-append, ◌==◌, arith,
}
use gempba.Base.Messages.{collect, collect-append}
use gempba.Score.Defs.{Score}
use gempba.Semi.Center.{
  Center, Out, Outcome, score_update, next_process, termination_notice, bump, count_at,
}

abbrev pub score_for : ℕ → Out → List Score
score_for r (score_update q s) = if q == r then s ∷ [] else []
score_for r _ = []

abbrev pub next_for : ℕ → Out → List (List ℕ)
next_for r (next_process q ks) = if q == r then ks ∷ [] else []
next_for r _ = []

-- The two counts of a TERMINATION.
abbrev pub ending_for : ℕ → Out → List (ℕ × ℕ)
ending_for r (termination_notice q a b) = if q == r then (a, b) ∷ [] else []
ending_for r _ = []

abbrev pub scores_to : ℕ → List Out → List Score
scores_to r outs = collect (score_for r) outs

abbrev pub nexts_to : ℕ → List Out → List (List ℕ)
nexts_to r outs = collect (next_for r) outs

abbrev pub endings_to : ℕ → List Out → List (ℕ × ℕ)
endings_to r outs = collect (ending_for r) outs

pub scores_to-append :
    (r : ℕ) (xs ys : List Out) → scores_to r (xs ++ ys) ≡ scores_to r xs ++ scores_to r ys
scores_to-append r = collect-append (score_for r)

pub nexts_to-append :
    (r : ℕ) (xs ys : List Out) → nexts_to r (xs ++ ys) ≡ nexts_to r xs ++ nexts_to r ys
nexts_to-append r = collect-append (next_for r)

pub count_at-bump :
    (ns : List ℕ) (q r : ℕ)
    → r < length ns
    → count_at (bump ns q) r ≡ count_at ns r + (if q == r then 1 else 0)
count_at-bump [] q r h = ground arith
count_at-bump (n ∷ ns) zero zero h = ground arith
count_at-bump (n ∷ ns) zero (suc r) h = ground arith
count_at-bump (n ∷ ns) (suc q) zero h = ground arith
count_at-bump (n ∷ ns) (suc q) (suc r) h = ground (arith, count_at-bump ns q r)

pub length-bump : (ns : List ℕ) (q : ℕ) → length (bump ns q) ≡ length ns
length-bump [] q = refl
length-bump (n ∷ ns) zero = refl
length-bump (n ∷ ns) (suc q) = ap suc (length-bump ns q)

-- A call tells the worker `r` what it writes down.
abbrev pub Tells : ℕ → Center → Center → List Out → Type 0
Tells r c d outs =
    (d.score_updates_sent ≡ c.score_updates_sent + length (scores_to r outs))
    × (d.global_score ≡ last c.global_score (scores_to r outs))
    × (count_at d.next_processes_sent r
        ≡ count_at c.next_processes_sent r + length (nexts_to r outs))
    × (length d.next_processes_sent ≡ length c.next_processes_sent)
    × (d.world_size ≡ c.world_size)

-- `s` is the first score.
abbrev pub Notified : Score → ℕ → Center → List Out → Type 0
Notified s r c outs =
    (length (scores_to r outs) ≡ c.score_updates_sent)
    × (last s (scores_to r outs) ≡ c.global_score)
    × (length (nexts_to r outs) ≡ count_at c.next_processes_sent r)

pub one_if :
    {A : Type 0} (x : A) (b : Bool) → (if b then 1 else 0) ≡ length (if b then x ∷ [] else [])
one_if x true = refl
one_if x false = refl

append_counts :
    {A : Type 0} (all xs ys : List A) (n m : ℕ)
    → all ≡ xs ++ ys
    → n ≡ m + length ys
    → length xs ≡ m
    → length all ≡ n
append_counts all xs ys n m e f g = ap length e ∙ omega (arith, length-append xs ys, f, g)

pub Notified-append :
    (s : Score) (r : ℕ) (c d : Center) (outs more : List Out)
    → Notified s r c outs
    → Tells r c d more
    → Notified s r d (outs ++ more)
Notified-append s r c d outs more (count, final, nexts) (scores, global, next_count, size, world) =
    (
      append_counts _ _ _ _ _ (scores_to-append r outs more) scores count,
      ap (last s) (scores_to-append r outs more)
          ∙ last-append s (scores_to r outs) (scores_to r more)
          ∙ ap (λ a. last a (scores_to r more)) final
          ∙ sym global,
      append_counts _ _ _ _ _ (nexts_to-append r outs more) next_count nexts,
    )

pub Tells-trans :
    (r : ℕ) (c d e : Center) (outs more : List Out)
    → Tells r c d outs
    → Tells r d e more
    → Tells r c e (outs ++ more)
Tells-trans r c d e outs more (s1, g1, n1, l1, w1) (s2, g2, n2, l2, w2) = (
  omega (
    arith,
    ap length (scores_to-append r outs more),
    length-append (scores_to r outs) (scores_to r more),
    s1,
    s2,
  ),
  g2
      ∙ ap (λ a. last a (scores_to r more)) g1
      ∙ sym (last-append c.global_score (scores_to r outs) (scores_to r more))
      ∙ ap (last c.global_score) (sym (scores_to-append r outs more)),
  omega (
    arith,
    ap length (nexts_to-append r outs more),
    length-append (nexts_to r outs) (nexts_to r more),
    n1,
    n2,
  ),
  l2 ∙ l1,
  w2 ∙ w1,
)

abbrev pub last_center : Center → Outcome → Center
last_center c none = c
last_center c (some (d, outs)) = d

abbrev pub last_outs : Outcome → List Out
last_outs none = []
last_outs (some (d, outs)) = outs
