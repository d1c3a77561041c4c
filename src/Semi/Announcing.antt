-- ===== src/Semi/Announcing.antt =====
-- Whom the handlers of the center announce to whom.
use gempba.Base.{
  ℕ, zero, suc, ◌+◌, ◌-◌, ◌%◌, ◌<◌, ◌≡◌, refl, sym, ap, subst, ◌==◌, ==_iff, if◌then◌else◌, true,
  Bool-cases, List, [], ◌∷◌, Option, none, some, All, All-append, inl, inr, arith, get_elem?, set,
}
use gempba.Base.Messages.{to_ranks}
use gempba.Score.Defs.{Score, Floats, should_broadcast_global}
use gempba.Termination.Handlers.{process_task_received_ack}
use gempba.Tree.Nodes.{Tree, Result, ok, thrown, fault, has_next, add_next}
use gempba.Central.Dispatch.{State, running, assigned, available, is_available}
use gempba.Semi.Center.{
  Center, Out, Outcome, next_process, record_score_broadcast, record_score_improved, score_update,
  with_tree, assign_next, released, first_available, get_available, give_next, close_running,
  process_running, is_candidate, search_from, search, reported_available, take_on, close_available,
  process_available, maybe_broadcast_global_score,
}
use gempba.Semi.Loop.{
  Message, running_state, available_state, score_proposal, task_received, other, acknowledged,
  handle, Holds,
}
use gempba.Semi.Notices.{next_for, nexts_to}
use gempba.Semi.Channel.{IsNext}
use gempba.Semi.Available.{get_elem-set, is_running_lem}

-- An announcement goes to a worker, and names other workers.
abbrev IsAnnounced : Out → Type 0
IsAnnounced (next_process q ks) = (0 < q) × All (IsNext q) ks
IsAnnounced _ = Unit

abbrev Announces : Outcome → Type 0
Announces o = Holds (λ d outs. All IsAnnounced outs) o

with_tree-Announces :
    (r : Result) (f : Tree → Outcome) → ((t : Tree) → Announces (f t)) → Announces (with_tree r f)
with_tree-Announces (ok t) f h = h t
with_tree-Announces thrown f h = tt
with_tree-Announces fault f h = tt

assign_next-Announces :
    (q child : ℕ) (c : Center) → 0 < q → IsNext q child → Announces (assign_next q child c)
unfolding assign_next
assign_next-Announces q child c low next =
    with_tree-Announces (add_next q child c.process_tree) _ (λ t. ((low, (next, tt)), (tt, tt)))

is_available_lem : (s : State) → is_available s ≡ true → s ≡ available
is_available_lem running h = cc
is_available_lem assigned h = cc
is_available_lem available h = refl

first_available_lem :
    (i k : ℕ) (ss : List State)
    → first_available i ss ≡ some k
    → (j : ℕ) × (k ≡ i + j) × (get_elem? ss j ≡ some available)
first_available_lem i k [] h = cc
first_available_lem i k (s ∷ ss) h = elim (Bool-cases (is_available s)) [
  | inl here ↦ let e = rw here at h in (zero, ground (arith, e), ap some (is_available_lem s here))
  | inr not_here ↦
      let (j, e, there) = first_available_lem (i + 1) k ss (rw not_here at h) in
      (suc j, omega (arith, e), there)
]

get_available_lem :
    (k : ℕ) (ss : List State)
    → get_available ss ≡ some k
    → (0 < k) × (get_elem? ss k ≡ some available)
unfolding get_available
get_available_lem k [] h = cc
get_available_lem k (center ∷ ss) h =
    let (j, e, there) = first_available_lem 1 k ss h in
    let f : k ≡ suc j = omega (arith, e) in
    (omega (arith, e), subst (λ n. get_elem? (center ∷ ss) n ≡ some available) (sym f) there)

search_from_candidate :
    (rounds i offset r : ℕ) (c : Center)
    → search_from rounds i offset c ≡ some r
    → is_candidate c r ≡ true
unfolding search_from
search_from_candidate zero i offset r c h = cc
search_from_candidate (suc rounds) i offset r c h =
    elim (Bool-cases (is_candidate c ((i + offset) % c.world_size))) [
      | inl here ↦ let e = rw here at h in ground (arith, e, here)
      | inr not_here ↦ search_from_candidate rounds (i + 1) offset r c (rw not_here at h)
    ]

-- What `give_next` gives to a rank that has just reported to run.
given :
    (src k : ℕ) (t : Tree) (ss : List State)
    → (if has_next t src then none else get_available (set ss src running)) ≡ some k
    → IsNext src k
given src k t ss h = elim (Bool-cases (has_next t src)) [
  | inl has ↦ let e = rw has at h in cc
  | inr none_there ↦
      let (low, free) = get_available_lem k (set ss src running) (rw none_there at h) in
      (low, (get_elem-set ss src k running available free (λ e. cc)).1)
]

give_next-Announces :
    (src : ℕ) (o : Option ℕ) (c : Center)
    → 0 < src
    → ((k : ℕ) → o ≡ some k → IsNext src k)
    → Announces (give_next src o c)
give_next-Announces src none c low h = tt
give_next-Announces src (some k) c low h = assign_next-Announces src k c low (h k refl)

close_running-Announces : (src : ℕ) (o : Outcome) → Announces o → Announces (close_running src o)
close_running-Announces src none h = tt
close_running-Announces src (some (c, outs)) h = (tt, (tt, h))

running-Announces : (src : ℕ) (c : Center) → 0 < src → Announces (process_running src c)
unfolding process_running
running-Announces src c low = with_tree-Announces (released src c.process_tree) _ (λ t.
    close_running-Announces src _
      (give_next-Announces src _ _ low (λ k h. given src k t c.process_state h)))

take_on-Announces :
    (src : ℕ) (o : Option ℕ) (c : Center)
    → ((r : ℕ) → o ≡ some r → (0 < r) × IsNext r src)
    → Announces (take_on src o c)
take_on-Announces src none c h = tt
take_on-Announces src (some r) c h =
    let (low, next) = h r refl in assign_next-Announces r src c low next

close_available-Announces : (o : Outcome) → Announces o → Announces (close_available o)
close_available-Announces none h = tt
close_available-Announces (some (c, outs)) h = (tt, h)

found :
    (offset src r : ℕ) (c : Center) (t : Tree)
    → 0 < src
    → search offset (record (reported_available src c) { process_tree = t }) ≡ some r
    → (0 < r) × IsNext r src
unfolding search is_candidate
found offset src r c t low h =
    let d = record (reported_available src c) { process_tree = t } in
    let here : is_candidate d r ≡ true = search_from_candidate d.world_size 0 offset r d h in
    let runs = is_running_lem (get_elem? d.process_state r) (ground (arith, here)) in
    let differs = (get_elem-set c.process_state src r available running runs (λ e. cc)).1 in
    (ground (arith, here), (low, λ e. differs (sym e)))

available-Announces :
    (offset src : ℕ) (c : Center) → 0 < src → Announces (process_available offset src c)
unfolding process_available
available-Announces offset src c low = with_tree-Announces (released src c.process_tree) _ (λ t.
    close_available-Announces _ (take_on-Announces src _ _ (λ r h. found offset src r c t low h)))

to_ranks-All :
    (a m : ℕ) (f : ℕ → Out) → ((q : ℕ) → IsAnnounced (f q)) → All IsAnnounced (to_ranks a m f)
to_ranks-All a zero f h = tt
to_ranks-All a (suc m) f h = (h a, to_ranks-All (a + 1) m f h)

score-Announces :
    (fl : Floats) (s : Score) (c : Center) → All IsAnnounced (maybe_broadcast_global_score fl s c).1
unfolding maybe_broadcast_global_score
score-Announces fl s c = elim (Bool-cases (should_broadcast_global fl c.goal c.global_score s)) [
  | inl better ↦ rw better (
    tt,
    All-append IsAnnounced (to_ranks 1 (c.world_size - 1) (λ r. score_update r s))
        (record_score_broadcast ∷ record_score_improved ∷ [])
        (to_ranks-All 1 (c.world_size - 1) (λ r. score_update r s) (λ q. tt)) (tt, (tt, tt)),
  )
  | inr worse ↦ rw worse (tt, tt)
]

-- A state message comes from a worker.
abbrev pub FromWorker : Message → Type 0
FromWorker (running_state src) = 0 < src
FromWorker (available_state offset src) = 0 < src
FromWorker _ = Unit

handle-Announces :
    (fl : Floats) (m : Message) (c : Center) → FromWorker m → Announces (handle fl m c)
unfolding handle
handle-Announces fl (running_state src) c low = running-Announces src c low
handle-Announces fl (available_state offset src) c low = available-Announces offset src c low
handle-Announces fl (score_proposal src s) c low = score-Announces fl s c
handle-Announces fl (task_received src) c low =
    elim (process_task_received_ack c.termination) as (λ o. Announces (acknowledged c o)) [
      | none ↦ tt
      | some d ↦ tt
    ]
handle-Announces fl other c low = tt

next_for-All : (r : ℕ) (o : Out) → IsAnnounced o → All (λ ks. All (IsNext r) ks) (next_for r o)
next_for-All r (next_process q ks) (low, next) = elim (Bool-cases (q == r)) [
  | inl same ↦ rw same (subst (λ n. All (IsNext n) ks) ((==_iff q r).0 same) next, tt)
  | inr elsewhere ↦ rw elsewhere tt
]
next_for-All r o a = tt

nexts_to-All :
    (r : ℕ) (outs : List Out)
    → All IsAnnounced outs
    → All (λ ks. All (IsNext r) ks) (nexts_to r outs)
nexts_to-All r [] a = tt
nexts_to-All r (o ∷ outs) (first, rest) =
    All-append (λ ks. All (IsNext r) ks) (next_for r o) (nexts_to r outs) (next_for-All r o first)
      (nexts_to-All r outs rest)

-- Whatever state the center of the semi-centralized scheduler is in: each message with next processes that it
-- sends a rank `r` while it handles a message, a state message being from a worker, names only workers, and
-- never `r` itself.
pub others_announced :
    (fl : Floats) (m : Message) (c d : Center) (outs : List Out) (r : ℕ)
    → FromWorker m
    → handle fl m c ≡ some (d, outs)
    → All (λ ks. All (IsNext r) ks) (nexts_to r outs)
others_announced fl m c d outs r from e =
    nexts_to-All r outs (subst Announces e (handle-Announces fl m c from))
