-- ===== src/Memory/Limit.antt =====
-- The walk ends, and reports the least real limit.
use gempba.Base.{
  ℕ, zero, suc, ◌<◌, ◌≤◌, ◌≡◌, refl, sym, ◌∙◌, ap, subst, ◌==◌, ltb, leb, if◌then◌else◌, true,
  false, ◌||◌, Bool-cases, Option-cases, List, [], ◌∷◌, ◌++◌, none, some, length, take, All,
  All-append, All-imp, ◌⊎◌, inl, inr, arith,
}
use mathlib.Core.List.{append_assoc}
use gempba.Memory.Walk.{Files, Best, find_last_slash, is_real, visit, above, climb, report, resolve}

-- The directories `ds` are those of the rounds that start at `dir`.
abbrev pub Visits : List ℕ → List ℕ → List (List ℕ) → Type 0
Visits root dir [] = true ≡ false
Visits root dir (d ∷ []) = (d ≡ dir) × (above root dir ≡ none)
Visits root dir (d ∷ e ∷ es) = (d ≡ dir) × (above root dir ≡ some e) × Visits root e (e ∷ es)

-- `b` is the least real limit of the directories `ds`, with the usage of the first one that has it; it is
-- 0 if none of them has a real limit.
abbrev pub Least : Files → List (List ℕ) → Best → Type 0
Least f ds b =
    ((b.limit ≡ 0) × All (λ d. is_real f (f.limit_of d) ≡ false) ds)
    ⊎ ((xs : List (List ℕ)) × (d : List ℕ) × (ys : List (List ℕ)) × (ds ≡ xs ++ d ∷ ys)
        × (is_real f (f.limit_of d) ≡ true)
        × (b ≡ record { limit = f.limit_of d; used = f.used_of d })
        × All (λ x. is_real f (f.limit_of x) ≡ true → f.limit_of d < f.limit_of x) xs
        × All (λ y. is_real f (f.limit_of y) ≡ true → f.limit_of d ≤ f.limit_of y) ys)

find_last_slash-length : (cs : List ℕ) (i : ℕ) → find_last_slash cs ≡ some i → i < length cs
unfolding find_last_slash
find_last_slash-length [] i e = ground arith
find_last_slash-length (c ∷ cs) i e = elim (Option-cases (find_last_slash cs)) [
  | inl none_here ↦ ground arith
  | inr (j, at) ↦ let h = find_last_slash-length cs j at in ground arith
]

length-take : (n : ℕ) (cs : List ℕ) → length (take n cs) ≤ n
length-take zero cs = ground arith
length-take (suc n) [] = ground arith
length-take (suc n) (c ∷ cs) = let h = length-take n cs in ground arith

-- Each round's path is shorter.
above-length : (root dir up : List ℕ) → above root dir ≡ some up → length up < length dir
unfolding above
above-length root dir up e = elim (Bool-cases (leb (length dir) (length root))) [
  | inl top ↦ ground arith
  | inr below ↦ elim (Option-cases (find_last_slash dir)) [
    | inl none_here ↦ ground arith
    | inr (i, at) ↦
        let h = find_last_slash-length dir i at in let l = length-take i dir in ground arith
  ]
]

real_not_zero : (f : Files) (n : ℕ) → is_real f n ≡ true → (n == 0) ≡ false
unfolding is_real
real_not_zero f n e = ground arith

visit_better :
    (f : Files) (d : List ℕ) (b : Best)
    → is_real f (f.limit_of d) ≡ true
    → (b.limit == 0 || ltb (f.limit_of d) b.limit) ≡ true
    → visit f d b ≡ record { limit = f.limit_of d; used = f.used_of d }
unfolding visit
visit_better f d b real less = rw (visit, real, less) refl

visit_kept :
    (f : Files) (d : List ℕ) (b : Best)
    → is_real f (f.limit_of d) ≡ true
    → (b.limit == 0 || ltb (f.limit_of d) b.limit) ≡ false
    → visit f d b ≡ b
unfolding visit
visit_kept f d b real more = rw (visit, real, more) refl

visit-Least :
    (f : Files) (xs : List (List ℕ)) (d : List ℕ) (b : Best)
    → Least f xs b
    → Least f (xs ++ d ∷ []) (visit f d b)
unfolding visit
visit-Least f xs d b (inl (z, none_real)) = elim (Bool-cases (is_real f (f.limit_of d))) [
  | inl real ↦
      rw (visit, real, z)
        (inr (xs, d, [], refl, real, refl, All-imp (λ x u v. ground arith) xs none_real, tt))
  | inr unreal ↦ rw (visit, unreal) (inl (z, All-append _ xs (d ∷ []) none_real (unreal, tt)))
]
visit-Least f xs d b (inr (us, m, vs, split, real_m, is_m, before, behind)) =
    let longer : xs ++ d ∷ [] ≡ us ++ m ∷ (vs ++ d ∷ []) =
      ap (λ l. l ++ d ∷ []) split ∙ append_assoc us (m ∷ vs) (d ∷ []) in
    let at_m : b.limit ≡ f.limit_of m = ap (λ c. c.limit) is_m in
    elim (Bool-cases (is_real f (f.limit_of d))) [
      | inl real ↦ elim (Bool-cases (ltb (f.limit_of d) (f.limit_of m))) [
        | inl less ↦
            subst (Least f (xs ++ d ∷ [])) (sym (visit_better f d b real (ground (arith, at_m)))) (
              inr (
                xs,
                d,
                [],
                refl,
                real,
                refl,
                subst (All (λ x. is_real f (f.limit_of x) ≡ true → f.limit_of d < f.limit_of x))
                    (sym split)
                    (All-append _ us (m ∷ vs)
                      (All-imp (λ x u r. let h = u r in ground arith) us before)
                      (
                        (λ r. ground arith),
                        All-imp (λ x u r. let h = u r in ground arith) vs behind,
                      )),
                tt,
              ))
        | inr more ↦
            let z = real_not_zero f (f.limit_of m) real_m in
            subst (Least f (xs ++ d ∷ [])) (sym (visit_kept f d b real (ground (arith, at_m)))) (
              inr (
                us,
                m,
                vs ++ d ∷ [],
                longer,
                real_m,
                is_m,
                before,
                All-append _ vs (d ∷ []) behind ((λ r. ground arith), tt),
              ))
      ]
      | inr unreal ↦
          rw (visit, unreal)
            (inr (
              us,
              m,
              vs ++ d ∷ [],
              longer,
              real_m,
              is_m,
              before,
              All-append _ vs (d ∷ []) behind ((λ r. ground arith), tt),
            ))
    ]

-- The rounds from `dir` on, behind those for `xs`.
climb_lem :
    (f : Files) (root : List ℕ) (fuel : ℕ) (dir : List ℕ) (b : Best) (xs : List (List ℕ))
    → length dir < fuel
    → Least f xs b
    → (ds : List (List ℕ)) × (best : Best) × Visits root dir (dir ∷ ds)
      × (climb f root fuel dir b ≡ some best)
      × Least f (xs ++ dir ∷ ds) best
unfolding climb
climb_lem f root zero dir b xs enough least = ground arith
climb_lem f root (suc fuel) dir b xs enough least = elim (Option-cases (above root dir)) [
  | inl top ↦ ([], visit f dir b, (refl, top), rw (climb, top) refl, visit-Least f xs dir b least)
  | inr (up, on) ↦
      let shorter = above-length root dir up on in
      let (ds, best, visits, ends, final) =
        climb_lem f root fuel up (visit f dir b) (xs ++ dir ∷ []) (ground arith)
          (visit-Least f xs dir b least) in
      (
        up ∷ ds,
        best,
        (refl, on, visits),
        rw (climb, on) ends,
        subst (λ l. Least f l best) (append_assoc xs (dir ∷ []) (up ∷ ds)) final,
      )
]

-- resolve_cgroup_memory on any directory, root and files: the walk ends, with fuel for each character of
-- the path and one round more. Of the directories that it visits, from the leaf up, it reports the least
-- real limit, with the usage of the deepest directory that has it; if none has a real limit, it reports 0
-- with the usage of the leaf.
pub resolve_lem :
    (f : Files) (root leaf : List ℕ)
    → (ds : List (List ℕ)) × (best : Best) × Visits root leaf (leaf ∷ ds)
      × (resolve f root leaf
          ≡ some (if best.limit == 0 then record { limit = 0; used = f.used_of leaf } else best))
      × Least f (leaf ∷ ds) best
unfolding resolve report
resolve_lem f root leaf =
    let (ds, best, visits, ends, least) =
      climb_lem f root (suc (length leaf)) leaf (record { limit = 0; used = 0 }) [] (ground arith)
        (inl (refl, tt)) in
    (ds, best, visits, rw (resolve, ends) refl, least)
