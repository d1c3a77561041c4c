-- ===== src/Score/Manager.antt =====
-- node_manager.hpp: the best result so far. Its lock makes each call one step. What it passes on to the
-- load balancer is modelled with the balancer.
use gempba.Base.{◌≡◌, if◌then◌else◌, Bool, true, false, List, [], ◌∷◌, Option, none, some}
use gempba.Score.Defs.{Score, Floats, Goal, should_update}

-- `std::variant<std::any, task_packet>`; an empty `std::any` is `none`.
pub data Cell (A P : Type 0) : Type 0 where
  any : Option A → Cell A P
  packet : P → Cell A P

pub record NodeManager (A P : Type 0) : Type 0 where
  pub result : Cell A P
  pub score : Score
  pub goal : Goal

-- The three updates: with a result, with a result and its serializer, and with a score alone.
pub data Update (A P : Type 0) : Type 0 where
  plain : A → Score → Update A P
  serialized : A → Score → (A → P) → Update A P
  score_only : Score → Update A P

module _ {A P : Type 0} (fl : Floats) (empty_packet : P) where
  unfoldable pub should_update_result : NodeManager A P → Score → Bool
  should_update_result m new = should_update fl m.goal m.score new

  unfoldable pub try_update_result : A → Score → NodeManager A P → NodeManager A P × Bool
  unfolding should_update_result
  try_update_result a s m =
      if should_update_result m s
      then (record m { result = any (some a); score = s }, true)
      else (m, false)

  unfoldable pub try_update_result_bytes :
      A → Score → (A → P) → NodeManager A P → NodeManager A P × Bool
  unfolding should_update_result
  try_update_result_bytes a s serializer m =
      if should_update_result m s
      then (record m { result = packet (serializer a); score = s }, true)
      else (m, false)

  unfoldable pub try_update_score_and_invalidate_result :
      Score → NodeManager A P → NodeManager A P × Bool
  unfolding should_update_result
  try_update_score_and_invalidate_result s m =
      if should_update_result m s
      then (record m { result = packet empty_packet; score = s }, true)
      else (m, false)

  unfoldable pub apply : Update A P → NodeManager A P → NodeManager A P × Bool
  unfolding try_update_result try_update_result_bytes try_update_score_and_invalidate_result
  apply (plain a s) m = try_update_result a s m
  apply (serialized a s f) m = try_update_result_bytes a s f m
  apply (score_only s) m = try_update_score_and_invalidate_result s m

  unfoldable pub run : List (Update A P) → NodeManager A P → NodeManager A P
  run [] m = m
  run (u ∷ us) m = run us (apply u m).0

  abbrev pub offered : Update A P → Score
  offered (plain a s) = s
  offered (serialized a s f) = s
  offered (score_only s) = s

  abbrev pub stored : Update A P → Cell A P
  stored (plain a s) = any (some a)
  stored (serialized a s f) = packet (f a)
  stored (score_only s) = packet empty_packet

  -- The manager with what the update brings.
  abbrev pub taken : Update A P → NodeManager A P → NodeManager A P
  taken u m = record m { result = stored u; score = offered u }

  -- `get_result_bytes` and `get_result`
  unfoldable pub get_result_bytes : NodeManager A P → Option (Score × P)
  get_result_bytes m = elim m.result [ any _ ↦ none | packet p ↦ some (m.score, p) ]

  unfoldable pub get_result : NodeManager A P → Option A
  get_result m = elim m.result [ any a ↦ a | packet _ ↦ none ]

  pub apply_taken :
      (u : Update A P) (m : NodeManager A P)
      → should_update fl m.goal m.score (offered u) ≡ true
      → apply u m ≡ (taken u m, true)
  unfolding apply
  apply_taken (plain a s) m e = rw e
  apply_taken (serialized a s f) m e = rw e
  apply_taken (score_only s) m e = rw e

  pub apply_refused :
      (u : Update A P) (m : NodeManager A P)
      → should_update fl m.goal m.score (offered u) ≡ false
      → apply u m ≡ (m, false)
  unfolding apply
  apply_refused (plain a s) m e = rw e
  apply_refused (serialized a s f) m e = rw e
  apply_refused (score_only s) m e = rw e
