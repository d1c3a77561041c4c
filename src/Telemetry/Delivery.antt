-- ===== src/Telemetry/Delivery.antt =====
-- What the ranks get of the controls that a tick sends, and the aggregator of the frames.
use gempba.Base.{
  ℕ, zero, suc, ◌+◌, ◌<◌, ◌≡◌, ◌⊎◌, refl, ◌∙◌, ap, ◌==◌, ==_iff, Bool-cases, if◌then◌else◌, Bool,
  true, false, List, [], ◌∷◌, ◌++◌, Option, none, some, update, inl, inr, arith, Option-cases,
}
use gempba.Base.Messages.{collect, collect-append, within}
use gempba.Telemetry.Hub.{Frame, HostFrame, Control, Aggregator, Hub, Reads}
use gempba.Telemetry.Tick.{
  to_others, fan_out, keep_workers, keep_nodes, drain_inbound_frames, may_drain, ingest,
}
use gempba.Telemetry.World.{for_rank, Polled, none_left, take_one}
use gempba.Telemetry.Requests.{last_id}

-- The loop reaches each rank of its range once, but not the own.
collect-to_others :
    (own j : ℕ) (m : Control) (n a : ℕ)
    → collect (for_rank j) (to_others own m a n)
      ≡ (if j == own then [] else if within j a n then m ∷ [] else [])
unfolding to_others
collect-to_others own j m zero a = ground arith
collect-to_others own j m (suc n) a = ground (arith, collect-to_others own j m n (a + 1))

pub collect-fan_out :
    (own n j : ℕ) (ms : List Control)
    → j < n
    → collect (for_rank j) (fan_out own n ms) ≡ (if j == own then [] else ms)
unfolding fan_out
collect-fan_out own n j [] h = ground arith
collect-fan_out own n j (m ∷ ms) h =
    let inside : within j 0 n ≡ true = ground arith in
    collect-append (for_rank j) (to_others own m 0 n) (fan_out own n ms)
    ∙ rw (collect-to_others own j m n 0, collect-fan_out own n j ms h, inside) (helper (j == own))
  where
    helper :
        (b : Bool)
        → (if b then [] else if true then m ∷ [] else []) ++ (if b then [] else ms)
          ≡ (if b then [] else m ∷ ms)
    helper true = refl
    helper false = refl

-- The request that a rank's frame at the aggregator answers, or 0.
abbrev pub id_of : Option Frame → ℕ
id_of none = 0
id_of (some f) = f.snapshot_id

abbrev pub kept_id : Option Aggregator → ℕ → ℕ
kept_id none j = 0
kept_id (some a) j = id_of (a.latest_worker j)

keep_workers-last_id :
    (ts : ℕ) {before after : ℕ → List Frame} {ws : List (ℕ × Frame)}
    → Polled before ws after
    → (a : Aggregator) (j : ℕ)
    → last_id (id_of ((keep_workers ts ws a).latest_worker j)) (after j)
      ≡ last_id (id_of (a.latest_worker j)) (before j)
unfolding keep_workers
keep_workers-last_id ts none_left a j = refl
keep_workers-last_id ts {before} (take_one src f rest e p) a j =
    keep_workers-last_id ts p
      (record a {
        latest_worker = update a.latest_worker src (some f);
        last_seen_ms = update a.last_seen_ms src (some ts);
      })
      j
    ∙ elim (Bool-cases (j == src)) [
      | inl here ↦ rw here (rw (ap before ((==_iff j src).0 here), e) refl)
      | inr there ↦ rw there refl
    ]

keep_nodes-latest :
    (ns : List (ℕ × HostFrame)) (a : Aggregator) → (keep_nodes ns a).latest_worker ≡ a.latest_worker
unfolding keep_nodes
keep_nodes-latest [] a = refl
keep_nodes-latest ((src, f) ∷ ns) a =
    keep_nodes-latest ns (record a { latest_node = update a.latest_node src (some f) })

pub Polled-nil :
    {before after : ℕ → List Frame} {ws : List (ℕ × Frame)}
    → Polled before ws after
    → ws ≡ []
    → after ≡ before
Polled-nil none_left e = refl
Polled-nil (take_one src f rest h p) e = cc

-- The gate is shut, or there is an aggregator and it gets the frames.
pub ingest-aggregator :
    (r : Reads) (ws : List (ℕ × Frame)) (ns : List (ℕ × HostFrame)) (h : Hub)
    → ((may_drain r h ≡ false) × ((ingest r ws ns h).0.aggregator ≡ h.aggregator))
      ⊎ ((a : Aggregator) × (h.aggregator ≡ some a)
          × ((ingest r ws ns h).0.aggregator ≡ some (keep_nodes ns (keep_workers r.drain_ms ws a))))
unfolding ingest drain_inbound_frames may_drain
ingest-aggregator r ws ns h = elim (Option-cases h.aggregator) [
  | inl e ↦ inl (ground arith, ground arith)
  | inr (a, e) ↦ elim (Bool-cases (may_drain r h)) [
    | inl up ↦ inr (a, e, ground arith)
    | inr shut ↦ inl (shut, ground arith)
  ]
]

-- What a poll takes off the wire, the aggregator has: the last request that is answered, for each rank,
-- there and on the wire stays the same.
pub ingest-last_id :
    (r : Reads) (ws : List (ℕ × Frame)) (ns : List (ℕ × HostFrame)) (h : Hub)
    {before after : ℕ → List Frame}
    → Polled before ws after
    → (may_drain r h ≡ false → ws ≡ [])
    → (j : ℕ)
    → last_id (kept_id (ingest r ws ns h).0.aggregator j) (after j)
      ≡ last_id (kept_id h.aggregator j) (before j)
ingest-last_id r ws ns h p shut j = elim (ingest-aggregator r ws ns h) [
  | inl (closed, e) ↦ rw (e, Polled-nil p (shut closed)) refl
  | inr (a, e, e') ↦
      rw (e', keep_nodes-latest ns (keep_workers r.drain_ms ws a), e)
        (keep_workers-last_id r.drain_ms p a j)
]
