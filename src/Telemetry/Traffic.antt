-- ===== src/Telemetry/Traffic.antt =====
-- The edges of a frame against its totals.
use gempba.Base.{
  ℕ, zero, suc, ◌+◌, ◌%◌, ◌<◌, ◌≡◌, refl, ==_iff, ◌==◌, Bool-cases, subst, ap, ◌∙◌, true, inl, inr,
  List, [], ◌∷◌, All, length, arith, ltb,
}
use gempba.Telemetry.Counters.{
  EdgeSlot, Counters, no_edges, fresh, count_edge, count_send, count_recv, Call, record_send,
  record_call, record_calls, EdgeCounter, edge_counters, load_totals,
}

abbrev pub sum_counts : List EdgeCounter → ℕ
sum_counts [] = 0
sum_counts (e ∷ es) = e.count + sum_counts es

abbrev pub sum_bytes : List EdgeCounter → ℕ
sum_bytes [] = 0
sum_bytes (e ∷ es) = e.bytes + sum_bytes es

abbrev slot_counts : List EdgeSlot → ℕ
slot_counts [] = 0
slot_counts (e ∷ es) = e.count + slot_counts es

abbrev slot_bytes : List EdgeSlot → ℕ
slot_bytes [] = 0
slot_bytes (e ∷ es) = e.bytes + slot_bytes es

-- A slot that was never counted has no bytes.
abbrev Kept : EdgeSlot → Type 0
Kept e = e.count ≡ 0 → e.bytes ≡ 0

edge_counters-sums :
    (i : ℕ) (es : List EdgeSlot)
    → All Kept es
    → (sum_counts (edge_counters i es) ≡ slot_counts es)
      × (sum_bytes (edge_counters i es) ≡ slot_bytes es)
unfolding edge_counters
edge_counters-sums i [] h = (refl, refl)
edge_counters-sums i (e ∷ es) h =
    let rest = edge_counters-sums (i + 1) es h.1 in
    elim (Bool-cases (e.count == 0)) [
      | inl never ↦
          let z = (==_iff e.count 0).0 never in let b = h.0 z in rw never (omega arith, omega arith)
      | inr some_sent ↦ rw some_sent (omega arith, omega arith)
    ]

count_edge-sums :
    (d b : ℕ) (es : List EdgeSlot)
    → d < length es
    → slot_counts es < 18446744073709551615
    → All Kept es
    → (slot_counts (count_edge d b es) ≡ slot_counts es + 1)
      × (slot_bytes (count_edge d b es) % 18446744073709551616
          ≡ (slot_bytes es + b) % 18446744073709551616)
      × (length (count_edge d b es) ≡ length es)
      × All Kept (count_edge d b es)
unfolding count_edge
count_edge-sums d b [] lt few h = absurd (omega arith)
count_edge-sums zero b (e ∷ es) lt few h =
    (omega arith, omega arith, refl, ((λ z. absurd (omega arith)), h.1))
count_edge-sums (suc d) b (e ∷ es) lt few h =
    let rest = count_edge-sums d b es (omega arith) (omega arith) h.1 in
    (omega arith, omega arith, omega arith, (h.0, rest.3))

-- What holds of the counters of a world of `n` ranks after `k` sends.
record Balanced (n k : ℕ) (c : Counters) : Type 0 where
  slots : length c.edges_out ≡ n
  edges_counted : slot_counts c.edges_out ≡ k
  sent : c.tasks_sent_total ≡ k
  bytes : slot_bytes c.edges_out % 18446744073709551616 ≡ c.bytes_sent_total
  kept : All Kept c.edges_out

abbrev pub one_if_send : Call → ℕ
one_if_send (record_send d b t) = 1
one_if_send _ = 0

-- The tasks that a sequence of calls sends, and whether each is sent to a rank of the world.
abbrev pub sends : List Call → ℕ
sends [] = 0
sends (e ∷ es) = one_if_send e + sends es

abbrev pub Sends : ℕ → Call → Type 0
Sends n (record_send d b t) = d < n
Sends n _ = Unit {0}

send-Balanced :
    (n k d b t : ℕ) (c : Counters)
    → d < n
    → k < 18446744073709551615
    → Balanced n k c
    → Balanced n (suc k) (count_send d b t c)
unfolding count_send
send-Balanced n k d b t c lt few v =
    let inside : ltb d (length c.edges_out) ≡ true = ground arith in
    let s = count_edge-sums d b c.edges_out (omega arith) (omega arith) v.kept in
    rw inside record {
      slots = omega arith;
      edges_counted = omega arith;
      sent = omega arith;
      bytes = omega arith;
      kept = s.3;
    }

record_call-Balanced :
    (n k : ℕ) (e : Call) (c : Counters)
    → Sends n e
    → k + one_if_send e < 18446744073709551616
    → Balanced n k c
    → Balanced n (k + one_if_send e) (record_call e c)
unfolding record_call count_recv
record_call-Balanced n k (record_send d b t) c h few v =
    subst (λ m. Balanced n m (count_send d b t c)) (omega arith)
      (send-Balanced n k d b t c h (omega arith) v)
record_call-Balanced n k _ c h few v = record {
  slots = v.slots;
  edges_counted = omega (arith, v.edges_counted);
  sent = omega (arith, v.sent);
  bytes = v.bytes;
  kept = v.kept;
}

record_calls-Balanced :
    (n k : ℕ) (es : List Call) (c : Counters)
    → All (Sends n) es
    → k + sends es < 18446744073709551616
    → Balanced n k c
    → Balanced n (k + sends es) (record_calls es c)
unfolding record_calls
record_calls-Balanced n k [] c h few v = subst (λ m. Balanced n m c) (omega arith) v
record_calls-Balanced n k (e ∷ es) c h few v =
    subst (λ m. Balanced n m (record_calls es (record_call e c))) (omega arith)
      (record_calls-Balanced n (k + one_if_send e) es (record_call e c) h.1 (omega arith)
        (record_call-Balanced n k e c h.0 (omega arith) v))

no_edges-zero :
    (n : ℕ)
    → (length (no_edges n) ≡ n)
      × (slot_counts (no_edges n) ≡ 0)
      × (slot_bytes (no_edges n) ≡ 0)
      × All Kept (no_edges n)
unfolding no_edges
no_edges-zero zero = (refl, refl, refl, tt)
no_edges-zero (suc n) =
    let r = no_edges-zero n in (ap suc r.0, omega arith, omega arith, ((λ z. refl), r.3))

fresh-Balanced : (n : ℕ) → Balanced n 0 (fresh n)
unfolding fresh
fresh-Balanced n =
    let r = no_edges-zero n in
    record { slots = r.0; edges_counted = r.1; sent = refl; bytes = omega arith; kept = r.3 }

-- Whatever calls have been made on the counters of a world of `n` ranks, fewer than 2^64 of them sends and
-- each of these to a rank of the world: the counts of the edges that a frame lists add up to the tasks sent,
-- which is the number of sends, and their bytes add up to the bytes sent, modulo 2^64.
pub record_calls_lem :
    (n : ℕ) (es : List Call)
    → All (Sends n) es
    → sends es < 18446744073709551616
    → let c = record_calls es (fresh n) in
      let edges = edge_counters 0 c.edges_out in
      (sum_counts edges ≡ (load_totals c).tasks_sent_total)
      × ((load_totals c).tasks_sent_total ≡ sends es)
      × (sum_bytes edges % 18446744073709551616 ≡ (load_totals c).bytes_sent_total)
unfolding load_totals
record_calls_lem n es h few =
    let v = record_calls-Balanced n 0 es (fresh n) h (omega arith) (fresh-Balanced n) in
    let s = edge_counters-sums 0 (record_calls es (fresh n)).edges_out v.kept in
    (
      omega (arith, s.0, v.edges_counted, v.sent),
      omega (arith, v.sent),
      ap (λ b. b % 18446744073709551616) s.1 ∙ v.bytes,
    )
