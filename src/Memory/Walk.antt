-- ===== src/Memory/Walk.antt =====
-- resolve_cgroup_memory in cgroup_memory.hpp. A path is the list of its characters' codes. The files are
-- the environment: `limit_of d` and `used_of d` are what read_cgroup_uint gives for the two files of the
-- directory d, 0 for a missing file or no limit.
use gempba.Base.{
  ℕ, zero, suc, ◌==◌, ltb, leb, if◌then◌else◌, Bool, not, ◌&&◌, ◌||◌, List, [], ◌∷◌, Option, none,
  some, length, take,
}

pub record Files : Type 0 where
  pub limit_of : List ℕ → ℕ
  pub used_of : List ℕ → ℕ
  pub host_total : ℕ

pub record Best : Type 0 where
  pub limit : ℕ
  pub used : ℕ

abbrev pub slash : ℕ
slash = 47

-- `find_last_of('/')`; npos is `none`
unfoldable pub find_last_slash : List ℕ → Option ℕ
find_last_slash [] = none
find_last_slash (c ∷ cs) = elim (find_last_slash cs) [
  | some i ↦ some (suc i)
  | none ↦ if c == slash then some 0 else none
]

-- A limit that counts: neither absent nor above the physical memory.
unfoldable pub is_real : Files → ℕ → Bool
is_real f limit = not (limit == 0) && (f.host_total == 0 || leb limit f.host_total)

-- One round of the loop, up to the tests for its end.
unfoldable pub visit : Files → List ℕ → Best → Best
visit f dir b =
    if is_real f (f.limit_of dir)
    then (if b.limit == 0 || ltb (f.limit_of dir) b.limit
        then record { limit = f.limit_of dir; used = f.used_of dir }
        else b)
    else b

-- The directory of the next round, `none` where the loop breaks.
unfoldable pub above : List ℕ → List ℕ → Option (List ℕ)
above root dir = if leb (length dir) (length root) then none else elim (find_last_slash dir) [
  | none ↦ none
  | some i ↦ if ltb i (length root) then none else some (take i dir)
]

-- `none` is the end of the fuel.
unfoldable pub climb : Files → List ℕ → ℕ → List ℕ → Best → Option Best
climb f root zero dir b = none
climb f root (suc fuel) dir b = elim (above root dir) [
  | none ↦ some (visit f dir b)
  | some up ↦ climb f root fuel up (visit f dir b)
]

-- What the caller gets, from the best limit seen.
unfoldable pub report : Files → List ℕ → Best → Best
report f leaf b = if b.limit == 0 then record { limit = 0; used = f.used_of leaf } else b

unfoldable pub resolve : Files → List ℕ → List ℕ → Option Best
resolve f root leaf =
    elim (climb f root (suc (length leaf)) leaf (record { limit = 0; used = 0 })) [
      | none ↦ none
      | some b ↦ some (report f leaf b)
    ]
