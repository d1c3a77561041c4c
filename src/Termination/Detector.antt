-- ===== src/Termination/Detector.antt =====
-- termination_detector.hpp: the Dijkstra–Scholten bookkeeping of one rank.
-- `NO_PARENT` (-1) is `none`: a rank is never negative. `deficit` is an `int` that starts at 0 and
-- falls only behind the test for 0, so it is a number here.
use gempba.Base.{
  ℕ, ◌+◌, ◌-◌, ◌==◌, if◌then◌else◌, Bool, true, false, ◌||◌, ◌&&◌, not, Option, none, some,
}

pub record Detector : Type 0 where
  pub is_root : Bool
  pub deficit : ℕ
  pub parent : Option ℕ

abbrev pub is_some {ℓ} : {A : Type ℓ} → Option A → Bool
is_some none = false
is_some (some a) = true

unfoldable pub init : Bool → Detector
init root = record { is_root = root; deficit = 0; parent = none }

unfoldable pub on_task_sent : Detector → Detector
on_task_sent d = record d { deficit = d.deficit + 1 }

-- The second part is the rank to acknowledge at once.
unfoldable pub on_task_received : Detector → ℕ → Detector × Option ℕ
on_task_received d sender =
    if d.is_root || is_some d.parent
    then (d, some sender)
    else (record d { parent = some sender }, none)

unfoldable pub on_ack_received : Detector → Detector × Bool
on_ack_received d =
    if d.deficit == 0 then (d, false) else (record d { deficit = d.deficit - 1 }, true)

-- The second part is the parent to acknowledge now.
unfoldable pub on_passive : Detector → Detector × Option ℕ
on_passive d =
    if not (d.deficit == 0) || not (is_some d.parent)
    then (d, none)
    else (record d { parent = none }, d.parent)

unfoldable pub is_quiescent : Detector → Bool
is_quiescent d = d.deficit == 0 && not (is_some d.parent)
