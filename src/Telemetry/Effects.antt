-- ===== src/Telemetry/Effects.antt =====
-- What a request of a client does to a hub.
use gempba.Base.{
  ℕ, ◌+◌, ◌<◌, ◌≡◌, refl, sym, ◌∙◌, ◌==◌, Bool-cases, List, [], ◌∷◌, ◌++◌, All, inl, inr, arith,
  ltb, ◌&&◌, not,
}
use mathlib.Core.List.{append-nil}
use gempba.Telemetry.Hub.{
  ControlKind, unspecified, be_node_sentinel, set_interval_ms, pause, resume, snapshot, Control,
  Hub, u32,
}
use gempba.Telemetry.Tick.{apply_control_from_client, request_snapshot, clamp_interval}
use gempba.Clock.Defs.{◌-u◌}
use gempba.Telemetry.Requests.{request_of, last_request, Positive, seen}

-- What a client asks for: with `ms`, the controls that are now to be fanned out as well.
pub record Asked (h h' : Hub) (ms : List Control) : Type 0 where
  pub rank : h'.rank ≡ h.rank
  pub world : h'.world_size ≡ h.world_size
  pub answered : h'.snapshot_answered ≡ h.snapshot_answered
  pub aggregator : h'.aggregator ≡ h.aggregator
  pub pending : h'.pending_fanout ≡ h.pending_fanout ++ ms
  pub requested : h'.snapshot_requested ≡ last_request h.snapshot_requested ms
  pub seen_too : seen h ≡ h.snapshot_requested → seen h' ≡ h'.snapshot_requested
  pub positive : All Positive ms

abbrev asked_for : ControlKind → ℕ → List Control
asked_for k v = record { version = 2; kind = k; value = v } ∷ []

module _ {h h' : Hub} (k : ControlKind) (v : ℕ) where
  -- a control other than SNAPSHOT
  passed_on :
      ((b : ℕ) → request_of k v b ≡ b)
      → h'.rank ≡ h.rank
      → h'.world_size ≡ h.world_size
      → h'.snapshot_answered ≡ h.snapshot_answered
      → h'.aggregator ≡ h.aggregator
      → h'.snapshot_requested ≡ h.snapshot_requested
      → seen h' ≡ seen h
      → h'.pending_fanout ≡ h.pending_fanout ++ asked_for k v
      → Asked h h' (asked_for k v)
  passed_on other rank world answered agg req se pend = record {
    rank = rank;
    world = world;
    answered = answered;
    aggregator = agg;
    pending = pend;
    requested = req ∙ sym (other h.snapshot_requested);
    seen_too = λ e. se ∙ e ∙ sym req;
    positive = (rw (other 1) (omega arith), tt);
  }

Asked-nil : (h : Hub) → Asked h h []
Asked-nil h = record {
  rank = refl;
  world = refl;
  answered = refl;
  aggregator = refl;
  pending = sym (append-nil h.pending_fanout);
  requested = refl;
  seen_too = λ e. e;
  positive = tt;
}

request_snapshot-Asked :
    (now : ℕ) (h : Hub)
    → h.snapshot_requested + 1 < 4294967296
    → (ms : List Control) × Asked h (request_snapshot now h) ms
unfolding request_snapshot
request_snapshot-Asked now h few =
    let too_soon = not (h.snapshot_requested == 0) && ltb (now -u h.snapshot_requested_ms) 50 in
    let id = u32 (h.snapshot_requested + 1) in
    let one : id ≡ h.snapshot_requested + 1 = omega arith in
    elim (Bool-cases too_soon) [
      | inl soon ↦ ([], rw soon (Asked-nil h))
      | inr late ↦ (
        asked_for snapshot id,
        rw late record {
          rank = refl;
          world = refl;
          answered = refl;
          aggregator = refl;
          pending = refl;
          requested = refl;
          seen_too = λ e. ground arith;
          positive = (omega arith, tt);
        },
      )
    ]

pub apply_control-Asked :
    (now : ℕ) (kind : ControlKind) (value : ℕ) (h : Hub)
    → h.snapshot_requested + 1 < 4294967296
    → (ms : List Control) × Asked h (apply_control_from_client now kind value h) ms
unfolding apply_control_from_client
apply_control-Asked now unspecified value h few = ([], Asked-nil h)
apply_control-Asked now be_node_sentinel value h few = ([], Asked-nil h)
apply_control-Asked now set_interval_ms value h few = (
  asked_for set_interval_ms (clamp_interval value),
  passed_on set_interval_ms (clamp_interval value) (λ b. refl) refl refl refl refl refl refl refl,
)
apply_control-Asked now pause value h few =
    (asked_for pause 0, passed_on pause 0 (λ b. refl) refl refl refl refl refl refl refl)
apply_control-Asked now resume value h few =
    (asked_for resume 0, passed_on resume 0 (λ b. refl) refl refl refl refl refl refl refl)
apply_control-Asked now snapshot value h few = request_snapshot-Asked now h few
