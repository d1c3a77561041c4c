-- ===== src/Memory/Examples.antt =====
-- A leaf without a limit below a root that has one.
use gempba.Base.{ℕ, ◌≡◌, ◌==◌, if◌then◌else◌, List, [], ◌∷◌, some, length}
use gempba.Memory.Walk.{Files, Best, resolve}
use gempba.Memory.Limit.{Visits, Least, resolve_lem}

-- "/s" and "/s/a"
abbrev root : List ℕ
root = 47 ∷ 115 ∷ []

abbrev leaf : List ℕ
leaf = 47 ∷ 115 ∷ 47 ∷ 97 ∷ []

abbrev files : Files
files = record {
  limit_of = λ d. if length d == 2 then 10 else 0;
  used_of = λ d. length d;
  host_total = 100;
}

resolve_lem_example :
    (ds : List (List ℕ)) × (best : Best) × Visits root leaf (leaf ∷ ds)
    × (resolve files root leaf
        ≡ some (if best.limit == 0 then record { limit = 0; used = files.used_of leaf } else best))
    × Least files (leaf ∷ ds) best
resolve_lem_example = resolve_lem files root leaf
