-- ===== src/Semi/Available.antt =====
-- What process_available does with a rank that has become available.
use gempba.Base.{
  ℕ, zero, suc, ◌+◌, ◌<◌, ◌≤◌, ◌≡◌, ◌≢◌, refl, sym, ◌∙◌, ap, subst, true, false, List, [], ◌∷◌,
  ◌++◌, Option, none, some, ◌⊎◌, inl, inr, arith, get_elem?, set, update,
}
use gempba.Base.Int.{ℤ, pos, negsuc, incr, decr}
use gempba.Tree.Nodes.{Tree, ok, has_next}
use gempba.Tree.Shape.{head?, Shape}
use gempba.Tree.Insertion.{add_next_lem}
use gempba.Central.Dispatch.{State, running, assigned, available}
use gempba.Semi.Center.{
  Center, Out, next_process, record_assignment, bump, record_state_msg, assign_next, released,
  is_candidate, is_running, reported_available, take_on, close_available, process_available,
}
use gempba.Semi.Search.{search_lem}

-- A worker, by the states that the center holds and the children in the process tree, that runs and has none
-- to push to.
abbrev pub Waits : List State → (ℕ → List ℕ) → ℕ → Type 0
Waits states kids r = (0 < r) × (get_elem? states r ≡ some running) × (kids r ≡ [])

-- The rank `src` is back, and the tree is `u`.
abbrev came_back : ℕ → State → Tree → Center → Center
came_back src now u c = record c {
  process_state = set c.process_state src now;
  process_tree = u;
  nodes_running = decr c.nodes_running;
  total_requests_number = c.total_requests_number + 1;
  stats = record c.stats {
    total_requested_tasks = c.stats.total_requested_tasks + 1;
    coordinator_messages_handled = c.stats.coordinator_messages_handled + 1;
  };
}

-- It is left available, or announced to the worker `r`.
abbrev pub left_available : ℕ → Tree → Center → Center
left_available src u c = record (came_back src available u c) {
  nodes_available = incr c.nodes_available;
}

abbrev pub announced_to : ℕ → ℕ → Tree → Center → Center
announced_to r src u c = record (came_back src assigned u c) {
  next_processes_sent = bump c.next_processes_sent r;
}

pub get_elem-set :
    (ss : List State) (i j : ℕ) (v w : State)
    → get_elem? (set ss i v) j ≡ some w
    → v ≢ w
    → (get_elem? ss j ≡ some w) × (j ≢ i)
get_elem-set [] i j v w h ne = cc
get_elem-set (s ∷ ss) zero zero v w h ne = ground arith
get_elem-set (s ∷ ss) zero (suc j) v w h ne = (h, λ e. absurd (omega (arith, e)))
get_elem-set (s ∷ ss) (suc i) zero v w h ne = (h, λ e. absurd (omega (arith, e)))
get_elem-set (s ∷ ss) (suc i) (suc j) v w h ne =
    let (same, differs) = get_elem-set ss i j v w h ne in (same, λ e. differs (omega (arith, e)))

get_elem-set-other :
    (ss : List State) (i j : ℕ) (v : State) → j ≢ i → get_elem? (set ss i v) j ≡ get_elem? ss j
get_elem-set-other [] i j v ne = refl
get_elem-set-other (s ∷ ss) zero zero v ne = absurd (ne refl)
get_elem-set-other (s ∷ ss) zero (suc j) v ne = refl
get_elem-set-other (s ∷ ss) (suc i) zero v ne = refl
get_elem-set-other (s ∷ ss) (suc i) (suc j) v ne = get_elem-set-other ss i j v (λ e. ne (ap suc e))

set-set : (ss : List State) (i : ℕ) (v w : State) → set (set ss i v) i w ≡ set ss i w
set-set [] i v w = refl
set-set (s ∷ ss) zero v w = refl
set-set (s ∷ ss) (suc i) v w = ap (λ l. s ∷ l) (set-set ss i v w)

decr-incr : (z : ℤ) → decr (incr z) ≡ z
decr-incr (pos n) = refl
decr-incr (negsuc zero) = refl
decr-incr (negsuc (suc n)) = refl

pub is_running_lem : (o : Option State) → is_running o ≡ true → o ≡ some running
is_running_lem none h = cc
is_running_lem (some running) h = refl
is_running_lem (some assigned) h = cc
is_running_lem (some available) h = cc

-- By the pointer to the first child.
no_children :
    (t : Tree) (r : ℕ) (ks : List ℕ) → (t.node r).next ≡ head? ks → has_next t r ≡ false → ks ≡ []
unfolding has_next
no_children t r [] e h = refl
no_children t r (k ∷ ks) e h = ground (arith, e)

no_next :
    (t : Tree) (r : ℕ) (ks : List ℕ) → (t.node r).next ≡ head? ks → ks ≡ [] → has_next t r ≡ false
unfolding has_next
no_next t r [] e h = rw (has_next, e) refl
no_next t r (k ∷ ks) e h = cc

candidate :
    (c : Center) (kids : ℕ → List ℕ) (r : ℕ)
    → Shape c.process_tree kids
    → is_candidate c r ≡ true
    → Waits c.process_state kids r
unfolding is_candidate
candidate c kids r shape h = (
  ground arith,
  is_running_lem (get_elem? c.process_state r) (ground arith),
  no_children c.process_tree r (kids r) (shape.children r).first (ground arith),
)

not_candidate :
    (c : Center) (kids : ℕ → List ℕ) (r : ℕ)
    → Shape c.process_tree kids
    → is_candidate c r ≡ false
    → ¬ Waits c.process_state kids r
unfolding is_candidate
not_candidate c kids r shape h (low, runs, none_there) =
    let childless = no_next c.process_tree r (kids r) (shape.children r).first none_there in
    ground (arith, runs, childless)

module _ (r src : ℕ) (c : Center) (t : Tree) (kids : ℕ → List ℕ) (shape : Shape t kids)
    (inside : src < t.size) (orphan : (t.node src).parent ≡ none) where
  -- The rank is announced to `r`.
  abbrev Announced : Option (Center × List Out) → Type 0
  Announced o =
      (u : Tree) × Shape u (update kids r (kids r ++ src ∷ []))
      × (o
          ≡ some (
            announced_to r src u c,
            record_state_msg ∷ next_process r (src ∷ []) ∷ record_assignment src ∷ [],
          ))

  announced :
      Announced (
        close_available
          (assign_next r src (record (reported_available src c) { process_tree = t })))
  unfolding assign_next
  announced = elim (add_next_lem t kids r src shape) [
    | inr (inl out, raised) ↦ absurd (omega (arith, out))
    | inr (inr (p, e), raised) ↦ let f = sym e ∙ orphan in cc
    | inl (low, free, u, made, there) ↦ (
      u,
      there,
      rw (made, set-set c.process_state src available assigned, decr-incr c.nodes_available) refl,
    )
  ]

-- process_available, whatever the random offset from 0 to the number of ranks. Let the release of the returning
-- rank, if it is a child in the process tree, succeed and leave the tree `t` with the children `kids`, in
-- which the rank has no parent. Then either some other worker runs and has no child in the tree: the
-- returning rank is announced to one such worker by one message, which is counted, becomes its only
-- child and is held for assigned, and as many ranks are available as before. Or no such worker is there:
-- the rank is held for available and counted, and no message goes out. In both cases one rank fewer runs,
-- the request and the message are counted in the statistics, and nothing else changes.
pub process_available_lem :
    (offset src : ℕ) (c : Center) (t : Tree) (kids : ℕ → List ℕ)
    → 0 < c.world_size
    → offset ≤ c.world_size
    → released src c.process_tree ≡ ok t
    → Shape t kids
    → src < t.size
    → (t.node src).parent ≡ none
    → ((r : ℕ) × (r < c.world_size)
        × Waits c.process_state kids r
        × (r ≢ src)
        × (u : Tree) × Shape u (update kids r (src ∷ []))
        × (process_available offset src c
            ≡ some (
              announced_to r src u c,
              record_state_msg ∷ next_process r (src ∷ []) ∷ record_assignment src ∷ [],
            )))
      ⊎ (((r : ℕ) → r < c.world_size → r ≢ src → ¬ Waits c.process_state kids r)
          × (process_available offset src c ≡ some (left_available src t c, record_state_msg ∷ [])))
unfolding process_available
process_available_lem offset src c t kids h fits e shape inside orphan =
    let d = record (reported_available src c) { process_tree = t } in
    rw e (elim (search_lem offset d h fits) [
      | inl (r, found, high, here) ↦
          let (low, runs, childless) = candidate d kids r shape here in
          let (ran, other) = get_elem-set c.process_state src r available running runs (λ f. cc) in
          let (u, there, same) = announced r src c t kids shape inside orphan in
          inl (
            r,
            high,
            (low, ran, childless),
            other,
            u,
            subst (λ ks. Shape u (update kids r (ks ++ src ∷ []))) childless there,
            ap (λ o. close_available (take_on src o d)) found ∙ same,
          )
      | inr (lost, all) ↦ inr (
        λ r high other waits.
            not_candidate d kids r shape (all r high) (
              waits.0,
              get_elem-set-other c.process_state src r available other ∙ waits.1,
              waits.2,
            ),
        ap (λ o. close_available (take_on src o d)) lost,
      )
    ])
