-- ===== src/Telemetry/Invariant.antt =====
-- The invariant of all hubs, about the last request for a snapshot.
use mathlib.Core.List.{append_assoc}
use gempba.Base.{
  ℕ, ◌≡◌, ◌≢◌, refl, sym, ◌∙◌, ap, ◌==◌, ==_iff, Bool-cases, if◌then◌else◌, false, List, [], ◌++◌,
  All, All-append, none, update, inl, inr,
}
use gempba.Telemetry.Counters.{Call}
use gempba.Telemetry.Hub.{Control, Hub}
use gempba.Telemetry.World.{World, call_counters}
use gempba.Telemetry.Requests.{last_request, last_request-append, Positive, seen, last_id}
use gempba.Telemetry.Delivery.{kept_id}
use gempba.Telemetry.Effects.{Asked}

-- What the other ranks are still to be told.
abbrev pub untold : Hub → ℕ → List Control
untold h j = if j == 0 then [] else h.pending_fanout

abbrev pub coming : World → ℕ → List Control
coming w j = w.controls j ++ untold (w.hub 0) j

pub record Fine (n : ℕ) (w : World) (j : ℕ) : Type 0 where
  pub rank : (w.hub j).rank ≡ j
  pub world : (w.hub j).world_size ≡ n
  pub asked : last_request (seen (w.hub j)) (coming w j) ≡ (w.hub 0).snapshot_requested
  pub positive : All Positive (coming w j)
  pub shown : last_id (kept_id (w.hub 0).aggregator j) (w.frames j) ≡ (w.hub j).snapshot_answered
  pub nothing_pending : j ≢ 0 → (w.hub j).pending_fanout ≡ []
  pub no_aggregator : j ≢ 0 → (w.hub j).aggregator ≡ none
  pub none_to_zero : w.controls 0 ≡ []

-- A field that is the same in the new hub of rank `i` is the same in all hubs.
pub update_field {ℓ} :
    {A : Type ℓ} (g : Hub → A) (hub : ℕ → Hub) (i : ℕ) (h : Hub) (j : ℕ)
    → g h ≡ g (hub i)
    → g (update hub i h j) ≡ g (hub j)
update_field g hub i h j e = elim (Bool-cases (j == i)) [
  | inl same ↦ rw same (e ∙ ap (λ k. g (hub k)) (sym ((==_iff j i).0 same)))
  | inr other ↦ rw other refl
]

pub recorded-Fine :
    (n : ℕ) (w : World) (i : ℕ) (e : Call) (j : ℕ)
    → Fine n w j
    → Fine n (record w { hub = update w.hub i (call_counters e (w.hub i)) }) j
recorded-Fine n w i e j v =
    let h = call_counters e (w.hub i) in
    let pending = λ (k : ℕ). update_field (λ (g : Hub). g.pending_fanout) w.hub i h k refl in
    let aggregator = λ (k : ℕ). update_field (λ (g : Hub). g.aggregator) w.hub i h k refl in
    record {
      rank = update_field (λ g. g.rank) w.hub i h j refl ∙ v.rank;
      world = update_field (λ g. g.world_size) w.hub i h j refl ∙ v.world;
      asked =
          rw (update_field seen w.hub i h j refl, pending 0)
            (v.asked ∙ sym (update_field (λ g. g.snapshot_requested) w.hub i h 0 refl));
      positive = rw (pending 0) v.positive;
      shown =
          rw (aggregator 0)
            (v.shown ∙ sym (update_field (λ g. g.snapshot_answered) w.hub i h j refl));
      nothing_pending = λ p. pending j ∙ v.nothing_pending p;
      no_aggregator = λ p. aggregator j ∙ v.no_aggregator p;
      none_to_zero = v.none_to_zero;
    }

-- Nothing is on its way to rank 0, so what was asked for last has been seen there.
pub zero_seen : (n : ℕ) (w : World) → Fine n w 0 → seen (w.hub 0) ≡ (w.hub 0).snapshot_requested
zero_seen n w z = sym (ap (λ c. last_request (seen (w.hub 0)) (c ++ [])) z.none_to_zero) ∙ z.asked

module _ (n : ℕ) (w : World) (h : Hub) (ms : List Control) (a : Asked (w.hub 0) h ms) where
  pub client-zero : Fine n w 0 → Fine n (record w { hub = update w.hub 0 h }) 0
  client-zero z = record {
    rank = a.rank ∙ z.rank;
    world = a.world ∙ z.world;
    asked = ap (λ c. last_request (seen h) (c ++ [])) z.none_to_zero ∙ a.seen_too (zero_seen n w z);
    positive = z.positive;
    shown = ap (λ g. last_id (kept_id g 0) (w.frames 0)) a.aggregator ∙ (z.shown ∙ sym a.answered);
    nothing_pending = λ p. absurd (p refl);
    no_aggregator = λ p. absurd (p refl);
    none_to_zero = z.none_to_zero;
  }

  pub client-other :
      (j : ℕ) → (j == 0) ≡ false → Fine n w j → Fine n (record w { hub = update w.hub 0 h }) j
  client-other j e v = record {
    rank = rw e v.rank;
    world = rw e v.world;
    asked =
        let before = rw e at v.asked in
        rw (e, a.pending)
          (ap (last_request (seen (w.hub j)))
              (sym (append_assoc (w.controls j) (w.hub 0).pending_fanout ms))
            ∙ (last_request-append (seen (w.hub j)) (w.controls j ++ (w.hub 0).pending_fanout) ms
                ∙ (ap (λ b. last_request b ms) before ∙ sym a.requested)));
    positive =
        let before = rw e at v.positive in
        rw (e, a.pending, ← append_assoc (w.controls j) (w.hub 0).pending_fanout ms)
          (All-append Positive (w.controls j ++ (w.hub 0).pending_fanout) ms before a.positive);
    shown = rw (e, a.aggregator) v.shown;
    nothing_pending = λ p. rw e (v.nothing_pending p);
    no_aggregator = λ p. rw e (v.no_aggregator p);
    none_to_zero = v.none_to_zero;
  }
