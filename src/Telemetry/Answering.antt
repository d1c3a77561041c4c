-- ===== src/Telemetry/Answering.antt =====
-- The answers to the requests of clients for snapshots.
use gempba.Base.{
  ℕ, zero, suc, ◌+◌, ◌<◌, ◌≤◌, ◌≡◌, ◌≢◌, refl, sym, ◌∙◌, ap, subst, ◌==◌, ==_iff, Bool-cases, Bool,
  if◌then◌else◌, All, update, false, List, [], ◌∷◌, ◌++◌, Option, none, some, Option-cases, inl,
  inr, arith,
}
use mathlib.Core.List.{append-nil}
use gempba.Telemetry.Hub.{
  Frame, HostFrame, Aggregator, Hub, Reads, on_runtime_ready, no_frames, obey_all,
}
use gempba.Telemetry.Tick.{
  emit, fan_out, ingest, count_time, any_behind, lacks, snapshot_outstanding, tick_if_due,
  apply_control_from_client,
}
use gempba.Telemetry.World.{
  World, start, Step, recorded, client, controls_in, frames_out, controls_out, frames_in, Reach,
  here, next,
}
use gempba.Telemetry.Requests.{seen, last_request, last_id, Positive, pump-answers}
use gempba.Telemetry.Delivery.{kept_id, id_of}
use gempba.Telemetry.Effects.{apply_control-Asked}
use gempba.Telemetry.Invariant.{Fine, coming, recorded-Fine, client-zero, client-other}
use gempba.Telemetry.Ticking.{part-Fine, untold-nil, inbound-Positive}
use gempba.Telemetry.Parts.{obey_all-Part, emit-Part, fan_out-Part, ingest-Part}

start-Fine : (n : ℕ) (sentinels : ℕ → Bool) (j : ℕ) → Fine n (start n sentinels) j
unfolding start on_runtime_ready no_frames
start-Fine n sentinels j = record {
  rank = refl;
  world = refl;
  asked = ap (last_request 0) (untold-nil (on_runtime_ready 0 n (sentinels 0)) j refl);
  positive = subst (All Positive) (sym (untold-nil (on_runtime_ready 0 n (sentinels 0)) j refl)) tt;
  shown = refl;
  nothing_pending = λ p. refl;
  no_aggregator = λ p. ground arith;
  none_to_zero = refl;
}

same_frames :
    (frames : ℕ → List Frame) (i j : ℕ) → frames j ≡ (if j == i then frames j ++ [] else frames j)
same_frames frames i j = elim (Bool-cases (j == i)) [
  | inl same ↦ rw same (sym (append-nil (frames j)))
  | inr other ↦ rw other refl
]

more_frames :
    (frames : ℕ → List Frame) (fs : List Frame) (i j : ℕ)
    → update frames i (frames i ++ fs) j ≡ (if j == i then frames j ++ fs else frames j)
more_frames frames fs i j = elim (Bool-cases (j == i)) [
  | inl same ↦ rw same (ap (λ k. frames k ++ fs) (sym ((==_iff j i).0 same)))
  | inr other ↦ rw other refl
]

Step-Fine :
    (n : ℕ) (w w' : World)
    → Step n w w'
    → ((j : ℕ) → j < n → Fine n w j)
    → (j : ℕ) → j < n
    → Fine n w' j
Step-Fine n w w' (recorded i e lt) v j l = recorded-Fine n w i e j (v j l)
Step-Fine n w w' (client now kind value few) v j l =
    let (ms, a) = apply_control-Asked now kind value (w.hub 0) few in
    elim (Bool-cases (j == 0)) [
      | inl zero_j ↦
          subst
            (Fine n (record w {
              hub = update w.hub 0 (apply_control_from_client now kind value (w.hub 0));
            }))
            (sym ((==_iff j 0).0 zero_j))
            (client-zero n w (apply_control_from_client now kind value (w.hub 0)) ms a
              (v 0 (omega arith)))
      | inr other ↦
          client-other n w (apply_control_from_client now kind value (w.hub 0)) ms a j other (v j l)
    ]
Step-Fine n w w' (controls_in i inbound later lt split) v j l =
    part-Fine n w i (obey_all inbound (w.hub i)) inbound later [] [] w.frames w.frames split
      (same_frames w.frames i)
      (obey_all-Part (w.hub i) w.frames inbound
        (inbound-Positive n w i inbound later split (v i lt)))
      (v i lt) j l (v j l)
Step-Fine n w w' (frames_out i r lt) v j l =
    let more = update w.frames i (w.frames i ++ (emit r (w.hub i)).1) in
    part-Fine n w i (emit r (w.hub i)).0 [] (w.controls i) [] (emit r (w.hub i)).1 more more refl
      (more_frames w.frames (emit r (w.hub i)).1 i) (emit-Part (w.hub i) more r) (v i lt) j l
      (v j l)
Step-Fine n w w' (controls_out i lt) v j l =
    let h = w.hub i in
    part-Fine n w i (record h { pending_fanout = [] }) [] (w.controls i)
      (fan_out h.rank h.world_size h.pending_fanout) [] w.frames w.frames refl
      (same_frames w.frames i) (fan_out-Part h w.frames) (v i lt) j l (v j l)
Step-Fine n w w' (frames_in i r ws ns any after lt poll shut) v j l =
    part-Fine n w i (count_time r any (ingest r ws ns (w.hub i)).0) [] (w.controls i) [] [] w.frames
      after refl (same_frames w.frames i) (ingest-Part (w.hub i) r ws ns any poll shut) (v i lt) j l
      (v j l)

Reach-Fine :
    (n : ℕ) (sentinels : ℕ → Bool) (w : World)
    → Reach n (start n sentinels) w
    → (j : ℕ) → j < n
    → Fine n w j
Reach-Fine n sentinels w here j l = start-Fine n sentinels j
Reach-Fine n sentinels w (next {u} reach step) j l =
    Step-Fine n u w step (Reach-Fine n sentinels u reach) j l

not-lacks : (id : ℕ) (o : Option Frame) → id ≢ 0 → id_of o ≡ id → lacks id o ≡ false
not-lacks id none some_id e = absurd (some_id (sym e))
not-lacks id (some f) some_id e = ground arith

none_behind :
    (id : ℕ) (a : Aggregator) (k rank : ℕ)
    → id ≢ 0
    → ((i : ℕ) → rank ≤ i → i < rank + k → kept_id (some a) i ≡ id)
    → any_behind id a rank k ≡ false
unfolding any_behind
none_behind id a zero rank some_id h = refl
none_behind id a (suc k) rank some_id h =
    let ih = none_behind id a k (rank + 1) some_id (λ i lo hi. h i (omega arith) (omega arith)) in
    let first = h rank (omega arith) (omega arith) in
    rw (not-lacks id (a.latest_worker rank) some_id first) ih

-- Nothing is outstanding once every rank's frame at the aggregator answers the last request.
all_answered :
    (now : ℕ) (h : Hub)
    → ((i : ℕ) → i < h.world_size → kept_id h.aggregator i ≡ h.snapshot_requested)
    → snapshot_outstanding now h ≡ false
unfolding snapshot_outstanding
all_answered now h answers = elim (Option-cases h.aggregator) [
  | inl e ↦ ground arith
  | inr (a, e) ↦ elim (Bool-cases (h.snapshot_requested == 0)) [
    | inl never ↦ ground arith
    | inr asked ↦
        let b =
          none_behind h.snapshot_requested a h.world_size 0 (ground arith)
            (λ i lo hi. ap (λ g. kept_id g i) (sym e) ∙ answers i (omega arith)) in
        ground (arith, b)
  ]
]

coming-told : (w : World) (i : ℕ) → (w.hub 0).pending_fanout ≡ [] → coming w i ≡ w.controls i
coming-told w i told =
    ap (◌++◌ (w.controls i)) (untold-nil (w.hub 0) i told) ∙ append-nil (w.controls i)

answered_there :
    (n : ℕ) (w : World) (i : ℕ)
    → Fine n w i
    → (w.hub 0).pending_fanout ≡ []
    → (w.controls i ≡ []) × (w.frames i ≡ []) × ((w.hub i).snapshot_due ≡ 0)
    → kept_id (w.hub 0).aggregator i ≡ (w.hub 0).snapshot_requested
answered_there n w i v told (no_controls, no_frames_left, not_due) =
    let seen_is : seen (w.hub i) ≡ (w.hub i).snapshot_answered = rw not_due refl in
    let here_too = ap (last_id (kept_id (w.hub 0).aggregator i)) (sym no_frames_left) in
    here_too
    ∙ (v.shown
        ∙ (sym seen_is
            ∙ (ap (last_request (seen (w.hub i))) (sym (coming-told w i told ∙ no_controls))
                ∙ v.asked)))

-- In every state that the hubs of n ranks can reach in which nothing is on its way, that is, no control or frame
-- between ranks, none pending at rank 0 and no request due at a rank: the latest frame of each rank at the
-- aggregator answers the last request that a client of rank 0 has made, and no snapshot is outstanding at
-- any time.
pub snapshot_complete :
    (n : ℕ) (sentinels : ℕ → Bool) (w : World)
    → Reach n (start n sentinels) w
    → 0 < n
    → (w.hub 0).pending_fanout ≡ []
    → ((i : ℕ) → i < n → (w.controls i ≡ []) × (w.frames i ≡ []) × ((w.hub i).snapshot_due ≡ 0))
    → ((i : ℕ) → i < n → kept_id (w.hub 0).aggregator i ≡ (w.hub 0).snapshot_requested)
      × ((now : ℕ) → snapshot_outstanding now (w.hub 0) ≡ false)
snapshot_complete n sentinels w reach some_rank told still =
    let fine = Reach-Fine n sentinels w reach in
    let answers = λ (i : ℕ) (lt : i < n). answered_there n w i (fine i lt) told (still i lt) in
    (
      answers,
      λ now.
          all_answered now (w.hub 0)
            (λ i lt. answers i (subst (λ m. i < m) (fine 0 some_rank).world lt)),
    )

-- In every state that the hubs of n ranks can reach in which nothing is pending at rank 0: if a rank has not
-- answered the last request, then a call of tick_if_due that finds all its controls arrived publishes one
-- worker frame, of that rank, which answers that request, whether telemetry is paused or not.
pub tick_answers :
    (n : ℕ) (sentinels : ℕ → Bool) (w : World) (i : ℕ) (r : Reads) (ws : List (ℕ × Frame))
    (ns : List (ℕ × HostFrame))
    → Reach n (start n sentinels) w
    → i < n
    → (w.hub 0).pending_fanout ≡ []
    → (w.hub i).snapshot_answered ≢ (w.hub 0).snapshot_requested
    → (f : Frame) × ((tick_if_due r (w.controls i) ws ns (w.hub i)).1.workers ≡ f ∷ [])
      × (f.snapshot_id ≡ (w.hub 0).snapshot_requested)
      × (f.worker_id ≡ i)
unfolding tick_if_due
tick_answers n sentinels w i r ws ns reach lt told not_yet =
    let v = Reach-Fine n sentinels w reach i lt in
    let all = coming-told w i told in
    let newest = ap (last_request (seen (w.hub i))) (sym all) ∙ v.asked in
    let (f, one, id, rank) =
      pump-answers r (w.controls i) (w.hub i) (subst (All Positive) all v.positive)
        (λ e. not_yet (sym e ∙ newest)) in
    (f, one, id ∙ newest, rank ∙ v.rank)
