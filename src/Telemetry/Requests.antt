-- ===== src/Telemetry/Requests.antt =====
-- The snapshot requests that reach a hub, and which of them it has answered.
use gempba.Base.{
  ℕ, ◌+◌, ◌<◌, ◌≡◌, ◌≢◌, refl, ◌∙◌, ap, ◌==◌, if◌then◌else◌, false, List, [], ◌∷◌, ◌++◌, All, arith,
}
use gempba.Telemetry.Hub.{
  Frame, ControlKind, unspecified, be_node_sentinel, set_interval_ms, pause, resume, snapshot,
  Control, Hub, Reads, u32, obey, obey_all, snapshot_worker_frame,
}
use gempba.Telemetry.Tick.{publish, emit, pump}

-- What a control asks for, where `b` was asked for before.
abbrev pub request_of : ControlKind → ℕ → ℕ → ℕ
request_of snapshot v b = v
request_of _ v b = b

abbrev pub last_request : ℕ → List Control → ℕ
last_request b [] = b
last_request b (m ∷ ms) = last_request (request_of m.kind m.value b) ms

abbrev pub Positive : Control → Type 0
Positive m = 0 < request_of m.kind m.value 1

pub last_request-append :
    (b : ℕ) (xs ys : List Control) → last_request b (xs ++ ys) ≡ last_request (last_request b xs) ys
last_request-append b [] ys = refl
last_request-append b (x ∷ xs) ys = last_request-append (request_of x.kind x.value b) xs ys

-- The last request that a hub has seen.
abbrev pub seen : Hub → ℕ
seen h = if h.snapshot_due == 0 then h.snapshot_answered else h.snapshot_due

-- What neither a control nor a frame that is due changes.
pub record Keeps (h h' : Hub) : Type 0 where
  pub rank : h'.rank ≡ h.rank
  pub world : h'.world_size ≡ h.world_size
  pub requested : h'.snapshot_requested ≡ h.snapshot_requested
  pub pending : h'.pending_fanout ≡ h.pending_fanout
  pub aggregator : h'.aggregator ≡ h.aggregator

Keeps-refl : {h : Hub} → Keeps h h
Keeps-refl = record {
  rank = refl;
  world = refl;
  requested = refl;
  pending = refl;
  aggregator = refl;
}

Keeps-trans : {a b c : Hub} → Keeps a b → Keeps b c → Keeps a c
Keeps-trans k l = record {
  rank = l.rank ∙ k.rank;
  world = l.world ∙ k.world;
  requested = l.requested ∙ k.requested;
  pending = l.pending ∙ k.pending;
  aggregator = l.aggregator ∙ k.aggregator;
}

obey-seen :
    (m : Control) (h : Hub) → Positive m → seen (obey m h) ≡ request_of m.kind m.value (seen h)
unfolding obey
obey-seen m h p = helper m.kind p
  where
    helper :
        (k : ControlKind)
        → 0 < request_of k m.value 1
        → seen (obey (record m { kind = k }) h) ≡ request_of k m.value (seen h)
    helper unspecified p = refl
    helper be_node_sentinel p = refl
    helper set_interval_ms p = refl
    helper pause p = refl
    helper resume p = refl
    helper snapshot p = ground arith

pub obey_all-seen :
    (ms : List Control) (h : Hub)
    → All Positive ms
    → seen (obey_all ms h) ≡ last_request (seen h) ms
unfolding obey_all
obey_all-seen [] h p = refl
obey_all-seen (m ∷ ms) h p =
    obey_all-seen ms (obey m h) p.1 ∙ ap (λ b. last_request b ms) (obey-seen m h p.0)

obey-Keeps :
    (m : Control) (h : Hub)
    → Keeps h (obey m h) × ((obey m h).snapshot_answered ≡ h.snapshot_answered)
unfolding obey
obey-Keeps m h = helper m.kind
  where
    helper :
        (k : ControlKind)
        → Keeps h (obey (record m { kind = k }) h)
          × ((obey (record m { kind = k }) h).snapshot_answered ≡ h.snapshot_answered)
    helper unspecified = (
      record { rank = refl; world = refl; requested = refl; pending = refl; aggregator = refl },
      refl,
    )
    helper _ = (
      record { rank = refl; world = refl; requested = refl; pending = refl; aggregator = refl },
      refl,
    )

pub obey_all-Keeps :
    (ms : List Control) (h : Hub)
    → Keeps h (obey_all ms h) × ((obey_all ms h).snapshot_answered ≡ h.snapshot_answered)
unfolding obey_all
obey_all-Keeps [] h = (Keeps-refl, refl)
obey_all-Keeps (m ∷ ms) h =
    let rest = obey_all-Keeps ms (obey m h) in
    let one = obey-Keeps m h in (Keeps-trans one.0 rest.0, rest.1 ∙ one.1)

-- The last request that frames answer, after one that answers `b`.
abbrev pub last_id : ℕ → List Frame → ℕ
last_id b [] = b
last_id b (f ∷ fs) = last_id f.snapshot_id fs

pub last_id-append : (b : ℕ) (xs ys : List Frame) → last_id b (xs ++ ys) ≡ last_id (last_id b xs) ys
last_id-append b [] ys = refl
last_id-append b (x ∷ xs) ys = last_id-append x.snapshot_id xs ys

pub emit-answered : (r : Reads) (h : Hub) → (emit r h).0.snapshot_answered ≡ seen h
unfolding emit publish
emit-answered r h = ground arith

pub emit-done : (r : Reads) (h : Hub) → (emit r h).0.snapshot_due ≡ 0
unfolding emit publish
emit-done r h = ground arith

pub emit-last_id :
    (r : Reads) (h : Hub)
    → last_id h.snapshot_answered (emit r h).1 ≡ (emit r h).0.snapshot_answered
unfolding emit publish snapshot_worker_frame
emit-last_id r h = ground arith

pub emit-Keeps : (r : Reads) (h : Hub) → Keeps h (emit r h).0
unfolding emit publish
emit-Keeps r h = ground arith

emit-due :
    (r : Reads) (h : Hub)
    → h.snapshot_due ≢ 0
    → (f : Frame) × ((emit r h).1 ≡ f ∷ [])
      × (f.snapshot_id ≡ h.snapshot_due)
      × (f.worker_id ≡ h.rank)
unfolding emit publish snapshot_worker_frame
emit-due r h due =
    let is_due : (h.snapshot_due == 0) ≡ false = ground arith in
    let h' = record h {
      snapshot_due = 0;
      snapshot_answered = h.snapshot_due;
      seq_no = u32 (h.seq_no + 1);
    } in
    (snapshot_worker_frame r h', rw is_due refl, refl, refl)

-- A request that is new is answered by a frame, paused or not.
pub pump-answers :
    (r : Reads) (inbound : List Control) (h : Hub)
    → All Positive inbound
    → last_request (seen h) inbound ≢ h.snapshot_answered
    → (f : Frame) × ((pump r inbound h).1.workers ≡ f ∷ [])
      × (f.snapshot_id ≡ last_request (seen h) inbound)
      × (f.worker_id ≡ h.rank)
unfolding pump
pump-answers r inbound h positive not_yet =
    let o = obey_all-Keeps inbound h in
    let s = obey_all-seen inbound h positive in
    let due : (obey_all inbound h).snapshot_due ≢ 0 = λ e. not_yet (ground arith) in
    let (f, one, id, rank) = emit-due r (obey_all inbound h) due in
    (f, one, ground arith, rank ∙ o.0.rank)
