-- ===== src/Semi/Ending.antt =====
-- The run of the center, up to its last message.
use gempba.Base.{
  last, ℕ, zero, suc, ◌+◌, ◌-◌, ◌<◌, ◌≡◌, refl, sym, ◌∙◌, ap, subst, true, List, [], ◌∷◌, ◌++◌,
  some, length, set, arith,
}
use gempba.Score.Defs.{Score, Floats, Goal}
use gempba.Tree.Nodes.{Tree}
use gempba.Central.Tasks.{Bundle}
use mathlib.Core.List.{append-nil}
use gempba.Base.Int.{decr}
use gempba.Central.Dispatch.{assigned}
use gempba.Semi.Center.{
  Center, Out, next_process, count_at, notify_termination, children_from, announce_children,
  assign_children, announce, topology_from, broadcast_nodes_topology, send_seed,
}
use gempba.Semi.Loop.{Message, start, zeros, begin, handle, ends, Reach, begun, receive, Holds}
use gempba.Semi.Notices.{
  scores_to, nexts_to, endings_to, Notified, Tells, Notified-append, Tells-trans,
}
use gempba.Semi.Told.{silent, handle-Tells, termination_tells, one_next}

module _ (r : ℕ) where
  children-Tells :
      (ks : List ℕ) (c : Center) → Tells r c (assign_children ks c).0 (assign_children ks c).1
  children-Tells [] c = silent r c [] refl refl
  children-Tells (k ∷ ks) c = children-Tells ks (record c {
    process_state = set c.process_state k assigned;
    nodes_available = decr c.nodes_available;
  })

  announce-Tells :
      (q : ℕ) (ks : List ℕ) (c : Center)
      → r < length c.next_processes_sent
      → Tells r c (announce q ks c).0 (announce q ks c).1
  announce-Tells q [] c h = silent r c [] refl refl
  announce-Tells q (k ∷ ks) c h =
      one_next r c (announce q (k ∷ ks) c).0 q (k ∷ ks) (next_process q (k ∷ ks) ∷ []) refl
        (append-nil _) refl refl refl refl h

  announce_children-Tells :
      (q : ℕ) (c : Center)
      → r < length c.next_processes_sent
      → Tells r c (announce_children q c).0 (announce_children q c).1
  unfolding announce_children
  announce_children-Tells q c h =
      let ks = children_from c.process_tree.size c.process_tree (c.process_tree.node q).next in
      let (d, o1) = assign_children ks c in
      let (e, o2) = announce q ks d in
      let first = children-Tells ks c in
      Tells-trans r c d e o1 o2 first (announce-Tells q ks d (omega (arith, first.3, h)))

  topology-Tells :
      (n q : ℕ) (c : Center)
      → r < length c.next_processes_sent
      → Tells r c (topology_from n q c).0 (topology_from n q c).1
  unfolding topology_from
  topology-Tells zero q c h = silent r c [] refl refl
  topology-Tells (suc n) q c h =
      let (d, o1) = announce_children q c in
      let (e, o2) = topology_from n (q + 1) d in
      let first = announce_children-Tells q c h in
      Tells-trans r c d e o1 o2 first (topology-Tells n (q + 1) d (omega (arith, first.3, h)))

  begin-Tells :
      (seed : Bundle) (c : Center)
      → r < length c.next_processes_sent
      → Tells r c (begin seed c).0 (begin seed c).1
  unfolding begin broadcast_nodes_topology send_seed
  begin-Tells seed c h =
      let d = (topology_from (c.world_size - 1) 1 c).0 in
      Tells-trans r c d (send_seed seed d).0 (topology_from (c.world_size - 1) 1 c).1
        (send_seed seed d).1 (topology-Tells (c.world_size - 1) 1 c h)
        (silent r d (send_seed seed d).1 refl refl)

length-zeros : (n : ℕ) → length (zeros n) ≡ n
length-zeros zero = refl
length-zeros (suc n) = ap suc (length-zeros n)

count_at-zeros : (n r : ℕ) → count_at (zeros n) r ≡ 0
count_at-zeros zero r = refl
count_at-zeros (suc n) zero = refl
count_at-zeros (suc n) (suc r) = count_at-zeros n r

-- In every state that the center's loop reaches, whatever the topology it began with and whatever its
-- random offsets: each worker has been sent as many scores and as many messages with next processes as the
-- center counts for it, and the last score is the center's (the starting one, if none was sent).
pub Reach-Notified :
    {fl : Floats} {seed : Bundle} (n : ℕ) (t : Tree) (g : Goal) (s : Score) {c : Center}
    {outs : List Out} (r : ℕ)
    → Reach fl (start n t g s) seed c outs
    → 0 < r
    → r < n
    → Notified s r c outs × (length c.next_processes_sent ≡ n) × (c.world_size ≡ n)
unfolding start
Reach-Notified {seed} n t g s r begun low high =
    let tells = begin-Tells r seed (start n t g s) (omega (arith, length-zeros n, high)) in
    (
      Notified-append s r (start n t g s) (begin seed (start n t g s)).0 []
          (begin seed (start n t g s)).1 (refl, refl, sym (count_at-zeros n r)) tells,
      tells.3 ∙ length-zeros n,
      tells.4,
    )
Reach-Notified {fl} n t g s r (receive {c} {d} {outs} {more} before m e going) low high =
    let (told, size, world) = Reach-Notified n t g s r before low high in
    let tells =
      subst (Holds (Tells r c)) e
        (handle-Tells r fl m c low (omega (arith, world)) (size ∙ sym world)) in
    (Notified-append s r c d outs more told tells, tells.3 ∙ size, tells.4 ∙ world)

-- At the end of the run: the message that ends a worker's run names just the number of the scores and the
-- number of the messages with next processes that the worker was sent, and the last score that it was
-- sent is the center's.
pub termination_counts :
    {fl : Floats} {seed : Bundle} {c d : Center} {outs more : List Out} (n : ℕ) (t : Tree)
    (g : Goal) (s : Score) (r : ℕ) (m : Message)
    → Reach fl (start n t g s) seed c outs
    → 0 < r
    → r < n
    → handle fl m c ≡ some (d, more)
    → ends m d ≡ true
    → (endings_to r (notify_termination d)
        ≡ (length (scores_to r (outs ++ more)), length (nexts_to r (outs ++ more))) ∷ [])
      × (last s (scores_to r (outs ++ more)) ≡ d.global_score)
termination_counts {fl} {c} {d} {outs} {more} n t g s r m before low high e over =
    let (told, size, world) = Reach-Notified n t g s r before low high in
    let tells =
      subst (Holds (Tells r c)) e
        (handle-Tells r fl m c low (omega (arith, world)) (size ∙ sym world)) in
    let (scores, final, nexts) = Notified-append s r c d outs more told tells in
    (
      termination_tells r d low (omega (arith, tells.4, world))
          ∙ (λ i. (sym scores i, sym nexts i) ∷ []),
      final,
    )
