-- ===== src/Telemetry/Ticking.antt =====
-- The parts of tick_if_due and the invariant of all hubs.
use mathlib.Core.List.{append-nil, append_assoc}
use gempba.Base.{
  ℕ, ◌<◌, ◌≡◌, refl, sym, ◌∙◌, ap, subst, ◌==◌, ==_iff, Bool-cases, if◌then◌else◌, false, List, [],
  ◌∷◌, ◌++◌, All, All-append, inl, inr, arith,
}
use gempba.Base.Messages.{collect}
use gempba.Telemetry.Hub.{Frame, Control, Hub}
use gempba.Telemetry.Tick.{fan_out}
use gempba.Telemetry.World.{World, for_rank, moved}
use gempba.Telemetry.Requests.{
  last_request, last_request-append, Positive, seen, last_id, last_id-append,
}
use gempba.Telemetry.Delivery.{collect-fan_out, kept_id}
use gempba.Telemetry.Parts.{Part}
use gempba.Telemetry.Invariant.{Fine, untold, coming, update_field}

pub untold-nil : (h : Hub) (j : ℕ) → h.pending_fanout ≡ [] → untold h j ≡ []
untold-nil h j e = ground arith

untold-other : (h : Hub) (j : ℕ) → (j == 0) ≡ false → untold h j ≡ h.pending_fanout
untold-other h j e = rw e refl

later-nil : (xs ys : List Control) → xs ++ ys ≡ [] → ys ≡ []
later-nil [] ys e = e
later-nil (x ∷ xs) ys e = cc

All-suffix {ℓ κ} :
    {A : Type ℓ} (P : A → Type κ) (xs ys : List A) → All P (xs ++ ys) → All P xs × All P ys
All-suffix P [] ys h = (tt, h)
All-suffix P (x ∷ xs) ys h = let r = All-suffix P xs ys h.1 in ((h.0, r.0), r.1)

-- What is to come to a rank holds for all that has arrived.
pub inbound-Positive :
    (n : ℕ) (w : World) (i : ℕ) (inbound later : List Control)
    → w.controls i ≡ inbound ++ later
    → Fine n w i
    → All Positive inbound
inbound-Positive n w i inbound later split v =
    let all = (All-suffix Positive (w.controls i) (untold (w.hub 0) i) v.positive).0 in
    (All-suffix Positive inbound later (subst (All Positive) split all)).0

module _ (n : ℕ) (w : World) (i : ℕ) (new : Hub) (inbound later : List Control)
    (sent : List (ℕ × Control)) (workers : List Frame) (before after : ℕ → List Frame)
    (split : w.controls i ≡ inbound ++ later)
    (more : (j : ℕ) → before j ≡ (if j == i then w.frames j ++ workers else w.frames j))
    (done : Part (w.hub i) new inbound sent workers before after) (v : Fine n w i) where
  abbrev ticked : World
  ticked = moved w i new later sent after

  field_after {ℓ} :
      {A : Type ℓ} (g : Hub → A) (j : ℕ) → g new ≡ g (w.hub i) → g (ticked.hub j) ≡ g (w.hub j)
  field_after g j = update_field g w.hub i new j

  given :
      (j : ℕ)
      → j < n
      → sent ≡ fan_out (w.hub i).rank (w.hub i).world_size (w.hub i).pending_fanout
      → collect (for_rank j) sent ≡ (if j == i then [] else (w.hub i).pending_fanout)
  given j lt all =
      ap (collect (for_rank j)) all
      ∙ (collect-fan_out (w.hub i).rank (w.hub i).world_size j (w.hub i).pending_fanout
            (subst (λ m. j < m) (sym v.world) lt)
          ∙ ap (λ k. if j == k then [] else (w.hub i).pending_fanout) v.rank)

  -- What is still to come to a rank, if this one tells the others what is pending.
  coming_told :
      (j : ℕ)
      → j < n
      → new.pending_fanout ≡ []
      → sent ≡ fan_out (w.hub i).rank (w.hub i).world_size (w.hub i).pending_fanout
      → coming ticked j ≡ (if j == i then later ++ untold (w.hub 0) i else coming w j)
  coming_told j lt none_pending all = elim (Bool-cases (0 == i)) [
    | inl center ↦
        let zero_i : i ≡ 0 = omega (arith, (==_iff 0 i).0 center) in
        let told : untold (ticked.hub 0) j ≡ [] = rw center (untold-nil new j none_pending) in
        rw (given j lt all, told)
          (elim (Bool-cases (j == i)) [
            | inl same ↦
                let none_left : untold (w.hub 0) i ≡ [] = ap (untold (w.hub 0)) zero_i in
                rw (same, none_left) (append-nil (later ++ []))
            | inr differ ↦
                let there : untold (w.hub 0) j ≡ (w.hub i).pending_fanout =
                  untold-other (w.hub 0) j (ground arith)
                  ∙ ap (λ k. (w.hub k).pending_fanout) (sym zero_i) in
                rw (differ, there) (append-nil (w.controls j ++ (w.hub i).pending_fanout))
          ])
    | inr other ↦
        let nothing : (w.hub i).pending_fanout ≡ [] = v.nothing_pending (ground arith) in
        let told : untold (ticked.hub 0) j ≡ untold (w.hub 0) j = rw other refl in
        rw (given j lt all, told, nothing)
          (elim (Bool-cases (j == i)) [
            | inl same ↦
                rw (same, append-nil later)
                  (ap (λ k. later ++ untold (w.hub 0) k) ((==_iff j i).0 same))
            | inr differ ↦ rw (differ, append-nil (w.controls j)) refl
          ])
  ]

  -- What is still to come to a rank: all but what this one has taken.
  coming_after :
      (j : ℕ)
      → j < n
      → coming ticked j ≡ (if j == i then later ++ untold (w.hub 0) i else coming w j)
  coming_after j lt = elim done.told [
    | inl (none_pending, all) ↦ coming_told j lt none_pending all
    | inr (same_pending, nothing_sent) ↦
        let told : untold (ticked.hub 0) j ≡ untold (w.hub 0) j =
          ap (λ p. if j == 0 then [] else p) (field_after (λ h. h.pending_fanout) 0 same_pending) in
        let nothing : collect (for_rank j) sent ≡ [] = ap (collect (for_rank j)) nothing_sent in
        rw (nothing, told)
          (elim (Bool-cases (j == i)) [
            | inl same ↦
                rw (same, append-nil later)
                  (ap (λ k. later ++ untold (w.hub 0) k) ((==_iff j i).0 same))
            | inr differ ↦ rw (differ, append-nil (w.controls j)) refl
          ])
  ]

  kept_after :
      (j : ℕ)
      → last_id (kept_id (ticked.hub 0).aggregator j) (after j)
        ≡ last_id (kept_id (w.hub 0).aggregator j) (before j)
  kept_after j = elim (Bool-cases (0 == i)) [
    | inl center ↦ rw center (
        done.kept j
        ∙ ap (λ k. last_id (kept_id (w.hub k).aggregator j) (before j))
            (sym ((==_iff 0 i).0 center)))
    | inr other ↦ rw other (
        ap (λ fs. last_id (kept_id (w.hub 0).aggregator j) (fs j))
          (done.untouched (v.no_aggregator (ground arith))))
  ]

  sent_to_zero : 0 < n → collect (for_rank 0) sent ≡ []
  sent_to_zero lt = elim done.told [
    | inl (none_pending, all) ↦ given 0 lt all ∙ elim (Bool-cases (0 == i)) [
      | inl center ↦ rw center refl
      | inr other ↦ rw other (v.nothing_pending (ground arith))
    ]
    | inr (same_pending, nothing_sent) ↦ ap (collect (for_rank 0)) nothing_sent
  ]

  none_to_zero_after : 0 < n → w.controls 0 ≡ [] → ticked.controls 0 ≡ []
  none_to_zero_after lt z = rw (sent_to_zero lt) (elim (Bool-cases (0 == i)) [
    | inl center ↦
        rw (center, append-nil later)
          (later-nil inbound later (sym split ∙ (ap w.controls (sym ((==_iff 0 i).0 center)) ∙ z)))
    | inr other ↦ rw (other, z) refl
  ])

  pending_after : (w.hub i).pending_fanout ≡ [] → new.pending_fanout ≡ []
  pending_after e = elim done.told [
    | inl (none_pending, all) ↦ none_pending
    | inr (same_pending, nothing_sent) ↦ same_pending ∙ e
  ]

  self-asked : last_request (seen new) (later ++ untold (w.hub 0) i) ≡ (w.hub 0).snapshot_requested
  self-asked =
      ap (λ b. last_request b (later ++ untold (w.hub 0) i)) done.seen_now
      ∙ (sym (last_request-append (seen (w.hub i)) inbound (later ++ untold (w.hub 0) i))
          ∙ (ap (last_request (seen (w.hub i))) (
                sym (append_assoc inbound later (untold (w.hub 0) i))
                ∙ ap (λ c. c ++ untold (w.hub 0) i) (sym split))
              ∙ v.asked))

  asked_after :
      (j : ℕ)
      → Fine n w j
      → last_request
          (seen (ticked.hub j))
          (if j == i then later ++ untold (w.hub 0) i else coming w j)
        ≡ (w.hub 0).snapshot_requested
  asked_after j u = elim (Bool-cases (j == i)) [
    | inl same ↦ rw same self-asked
    | inr differ ↦ rw differ u.asked
  ]

  coming-Positive :
      (j : ℕ)
      → Fine n w j
      → All Positive (if j == i then later ++ untold (w.hub 0) i else coming w j)
  coming-Positive j u = elim (Bool-cases (j == i)) [
    | inl same ↦
        let all = All-suffix Positive (w.controls i) (untold (w.hub 0) i) v.positive in
        rw same (
          All-append Positive later (untold (w.hub 0) i)
            (All-suffix Positive inbound later (subst (All Positive) split all.0)).1 all.1)
    | inr differ ↦ rw differ u.positive
  ]

  shown_after :
      (j : ℕ)
      → Fine n w j
      → last_id (kept_id (w.hub 0).aggregator j) (before j) ≡ (ticked.hub j).snapshot_answered
  shown_after j u =
      ap (last_id (kept_id (w.hub 0).aggregator j)) (more j) ∙ elim (Bool-cases (j == i)) [
        | inl same ↦ rw same (
            ap (λ k. last_id (kept_id (w.hub 0).aggregator k) (w.frames k ++ workers))
              ((==_iff j i).0 same)
            ∙ (last_id-append (kept_id (w.hub 0).aggregator i) (w.frames i) workers
                ∙ (ap (λ b. last_id b workers) v.shown ∙ done.shown)))
        | inr differ ↦ rw differ u.shown
      ]

  pub part-Fine : (j : ℕ) → j < n → Fine n w j → Fine n ticked j
  part-Fine j lt u =
      let requested = field_after (λ h. h.snapshot_requested) 0 done.requested in
      record {
        rank = field_after (λ h. h.rank) j done.rank ∙ u.rank;
        world = field_after (λ h. h.world_size) j done.world ∙ u.world;
        asked =
            ap (last_request (seen (ticked.hub j))) (coming_after j lt)
            ∙ (asked_after j u ∙ sym requested);
        positive = subst (All Positive) (sym (coming_after j lt)) (coming-Positive j u);
        shown = kept_after j ∙ shown_after j u;
        nothing_pending = λ p. elim (Bool-cases (j == i)) [
          | inl same ↦ rw same (pending_after (v.nothing_pending (ground arith)))
          | inr differ ↦ rw differ (u.nothing_pending p)
        ];
        no_aggregator = λ p. elim (Bool-cases (j == i)) [
          | inl same ↦ rw same (done.none_stays (v.no_aggregator (ground arith)))
          | inr differ ↦ rw differ (u.no_aggregator p)
        ];
        none_to_zero = none_to_zero_after (omega arith) u.none_to_zero;
      }
