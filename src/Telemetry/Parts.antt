-- ===== src/Telemetry/Parts.antt =====
-- What each part of tick_if_due does to the requests of a hub, the controls and the frames.
use gempba.Base.{
  ℕ, ◌≡◌, refl, sym, ◌∙◌, ap, ◌⊎◌, if◌then◌else◌, Bool, false, ◌==◌, List, [], All, none, inl, inr,
  arith,
}
use gempba.Telemetry.Hub.{Frame, HostFrame, Control, Hub, Reads, obey_all}
use gempba.Telemetry.Tick.{emit, fan_out, may_drain, ingest, count_time}
use gempba.Telemetry.World.{Polled}
use gempba.Telemetry.Requests.{
  last_request, Positive, seen, last_id, obey_all-Keeps, obey_all-seen, emit-Keeps, emit-answered,
  emit-done, emit-last_id,
}
use gempba.Telemetry.Delivery.{kept_id, Polled-nil, ingest-aggregator, ingest-last_id}

-- The fields that the requests are about, but for the aggregator's.
record Same (h h' : Hub) : Type 0 where
  rank : h'.rank ≡ h.rank
  world : h'.world_size ≡ h.world_size
  requested : h'.snapshot_requested ≡ h.snapshot_requested
  answered : h'.snapshot_answered ≡ h.snapshot_answered
  due : h'.snapshot_due ≡ h.snapshot_due
  pending : h'.pending_fanout ≡ h.pending_fanout

ingest-Same :
    (r : Reads) (ws : List (ℕ × Frame)) (ns : List (ℕ × HostFrame)) (h : Hub)
    → Same h (ingest r ws ns h).0
unfolding ingest
ingest-Same r ws ns h = ground arith

count_time-Same : (r : Reads) (moved : Bool) (h : Hub) → Same h (count_time r moved h)
unfolding count_time
count_time-Same r moved h = ground arith

count_time-aggregator :
    (r : Reads) (moved : Bool) (h : Hub) → (count_time r moved h).aggregator ≡ h.aggregator
unfolding count_time
count_time-aggregator r moved h = ground arith

ingest-none :
    (r : Reads) (ws : List (ℕ × Frame)) (ns : List (ℕ × HostFrame)) (h : Hub)
    → h.aggregator ≡ none
    → (ingest r ws ns h).0.aggregator ≡ none
ingest-none r ws ns h e = elim (ingest-aggregator r ws ns h) [
  | inl (closed, same) ↦ same ∙ e
  | inr (a, is_some, kept) ↦ cc
]

may_drain-none : (r : Reads) (h : Hub) → h.aggregator ≡ none → may_drain r h ≡ false
unfolding may_drain
may_drain-none r h e = ground arith

seen-answered : (h : Hub) → h.snapshot_due ≡ 0 → seen h ≡ h.snapshot_answered
seen-answered h e = rw e refl

-- A part takes `inbound` from the controls that come to its rank, sends the controls `sent` and the frames
-- `workers`, and turns the frames on their way from `before` to `after`.
pub record Part (h new : Hub) (inbound : List Control) (sent : List (ℕ × Control))
    (workers : List Frame) (before after : ℕ → List Frame) : Type 0 where
  pub rank : new.rank ≡ h.rank
  pub world : new.world_size ≡ h.world_size
  pub requested : new.snapshot_requested ≡ h.snapshot_requested
  pub told :
      ((new.pending_fanout ≡ []) × (sent ≡ fan_out h.rank h.world_size h.pending_fanout))
      ⊎ ((new.pending_fanout ≡ h.pending_fanout) × (sent ≡ []))
  pub seen_now : seen new ≡ last_request (seen h) inbound
  pub shown : last_id h.snapshot_answered workers ≡ new.snapshot_answered
  pub none_stays : h.aggregator ≡ none → new.aggregator ≡ none
  pub untouched : h.aggregator ≡ none → after ≡ before
  pub kept :
      (j : ℕ)
      → last_id (kept_id new.aggregator j) (after j) ≡ last_id (kept_id h.aggregator j) (before j)

module _ (h : Hub) (frames : ℕ → List Frame) where
  pub obey_all-Part :
      (inbound : List Control)
      → All Positive inbound
      → Part h (obey_all inbound h) inbound [] [] frames frames
  obey_all-Part inbound positive =
      let (k, answered) = obey_all-Keeps inbound h in
      record {
        rank = k.rank;
        world = k.world;
        requested = k.requested;
        told = inr (k.pending, refl);
        seen_now = obey_all-seen inbound h positive;
        shown = sym answered;
        none_stays = λ e. k.aggregator ∙ e;
        untouched = λ e. refl;
        kept = λ j. ap (λ a. last_id (kept_id a j) (frames j)) k.aggregator;
      }

  pub emit-Part : (r : Reads) → Part h (emit r h).0 [] [] (emit r h).1 frames frames
  emit-Part r =
      let k = emit-Keeps r h in
      record {
        rank = k.rank;
        world = k.world;
        requested = k.requested;
        told = inr (k.pending, refl);
        seen_now = seen-answered (emit r h).0 (emit-done r h) ∙ emit-answered r h;
        shown = emit-last_id r h;
        none_stays = λ e. k.aggregator ∙ e;
        untouched = λ e. refl;
        kept = λ j. ap (λ a. last_id (kept_id a j) (frames j)) k.aggregator;
      }

  pub fan_out-Part :
      Part h
        (record h { pending_fanout = [] })
        []
        (fan_out h.rank h.world_size h.pending_fanout)
        []
        frames
        frames
  fan_out-Part = record {
    rank = refl;
    world = refl;
    requested = refl;
    told = inl (refl, refl);
    seen_now = refl;
    shown = refl;
    none_stays = λ e. e;
    untouched = λ e. refl;
    kept = λ j. refl;
  }

pub ingest-Part :
    (h : Hub) (r : Reads) (ws : List (ℕ × Frame)) (ns : List (ℕ × HostFrame)) (moved : Bool)
    {before after : ℕ → List Frame}
    → Polled before ws after
    → (may_drain r h ≡ false → ws ≡ [])
    → Part h (count_time r moved (ingest r ws ns h).0) [] [] [] before after
ingest-Part h r ws ns moved {before} {after} p shut =
    let h2 = (ingest r ws ns h).0 in
    let s = ingest-Same r ws ns h in
    let c = count_time-Same r moved h2 in
    let a = count_time-aggregator r moved h2 in
    record {
      rank = c.rank ∙ s.rank;
      world = c.world ∙ s.world;
      requested = c.requested ∙ s.requested;
      told = inr (c.pending ∙ s.pending, refl);
      seen_now =
          ap (λ d. if d == 0 then (count_time r moved h2).snapshot_answered else d) (c.due ∙ s.due)
          ∙ ap (λ b. if h.snapshot_due == 0 then b else h.snapshot_due) (c.answered ∙ s.answered);
      shown = sym (c.answered ∙ s.answered);
      none_stays = λ e. a ∙ ingest-none r ws ns h e;
      untouched = λ e. Polled-nil p (shut (may_drain-none r h e));
      kept = λ j. ap (λ g. last_id (kept_id g j) (after j)) a ∙ ingest-last_id r ws ns h p shut j;
    }
