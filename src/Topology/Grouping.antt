-- ===== src/Topology/Grouping.antt =====
-- The hosts by their names, and the workers on each.
use gempba.Base.{
  ℕ, ◌≡◌, refl, ◌∙◌, ap, subst, ==_refl, ltb, if◌then◌else◌, true, false, Bool-cases, List, [], ◌∷◌,
  ◌++◌, Option, none, some, inl, inr, arith,
}
use mathlib.Core.List.{append_assoc, append-nil}
use gempba.Topology.Codec.{Layout}
use gempba.Topology.Hosts.{
  Identity, Host, same, new_host, add_worker, join, group, find_host, with_layout, put_layout,
}

pub same_refl : (xs : List ℕ) → same xs xs ≡ true
same_refl [] = refl
same_refl (x ∷ xs) = ground (arith, ==_refl x, same_refl xs)

pub same→eq : (xs ys : List ℕ) → same xs ys ≡ true → xs ≡ ys
same→eq [] [] h = refl
same→eq [] (y ∷ ys) h = cc
same→eq (x ∷ xs) [] h = cc
same→eq (x ∷ xs) (y ∷ ys) h = ground (arith, same→eq xs ys)

pub same-sym : (xs ys : List ℕ) → same xs ys ≡ same ys xs
same-sym [] [] = refl
same-sym [] (y ∷ ys) = refl
same-sym (x ∷ xs) [] = refl
same-sym (x ∷ xs) (y ∷ ys) = ground (arith, same-sym xs ys)

pub same_apart :
    (xs ys name : List ℕ) → same xs ys ≡ false → same xs name ≡ true → same ys name ≡ false
same_apart xs ys name apart h =
    same-sym ys name ∙ subst (λ z. same z ys ≡ false) (same→eq xs name h) apart

-- A further identity with the name.
abbrev pub added : Identity → Option Host → Host
added i none = new_host i
added i (some h) = add_worker i.worker_id h

pub find_host-join :
    (name : List ℕ) (i : Identity) (hs : List Host)
    → find_host name (join i hs)
      ≡ (if same i.hostname name then some (added i (find_host name hs)) else find_host name hs)
unfolding find_host join
find_host-join name i [] = refl
find_host-join name i (h ∷ hs) = elim (Bool-cases (same h.layout.hostname i.hostname)) [
  | inl here ↦
      let e = same→eq h.layout.hostname i.hostname here in
      rw (here, e)
        (elim (Bool-cases (same i.hostname name)) [
          | inl own ↦ rw own refl
          | inr other ↦ rw other refl
        ])
  | inr there ↦ elim (Bool-cases (same h.layout.hostname name)) [
    | inl found ↦ rw (there, found, same_apart h.layout.hostname i.hostname name there found) refl
    | inr further ↦ rw (there, further) (find_host-join name i hs)
  ]
]

abbrev pub set_layout : Layout → Option Host → Option Host
set_layout l none = none
set_layout l (some h) = some (with_layout l h)

pub find_host-put_layout :
    (name : List ℕ) (l : Layout) (hs : List Host)
    → find_host name (put_layout l hs)
      ≡ (if same l.hostname name then set_layout l (find_host name hs) else find_host name hs)
unfolding find_host put_layout
find_host-put_layout name l [] = ground arith
find_host-put_layout name l (h ∷ hs) = elim (Bool-cases (same h.layout.hostname l.hostname)) [
  | inl here ↦
      let e = same→eq h.layout.hostname l.hostname here in
      rw (here, e)
        (elim (Bool-cases (same l.hostname name)) [
          | inl own ↦ rw own refl
          | inr other ↦ rw other refl
        ])
  | inr there ↦ elim (Bool-cases (same h.layout.hostname name)) [
    | inl found ↦ rw (there, found, same_apart h.layout.hostname l.hostname name there found) refl
    | inr further ↦ rw (there, further) (find_host-put_layout name l hs)
  ]
]

-- The identities with a name, in the order of the ranks.
abbrev pub workers_on : List ℕ → List Identity → List ℕ
workers_on name [] = []
workers_on name (i ∷ is) =
    if same i.hostname name then i.worker_id ∷ workers_on name is else workers_on name is

abbrev pub least : ℕ → List ℕ → ℕ
least m [] = m
least m (w ∷ ws) = least (if ltb w m then w else m) ws

-- A host with further workers, the least of all its sentinel.
abbrev pub with_workers : List ℕ → Host → Host
with_workers ws h = record h {
  worker_ids = h.worker_ids ++ ws;
  sentinel_worker_id = least h.sentinel_worker_id ws;
}

with_workers-added :
    (w : ℕ) (ws : List ℕ) (h : Host) → with_workers ws (add_worker w h) ≡ with_workers (w ∷ ws) h
with_workers-added w ws h = rw (append_assoc h.worker_ids (w ∷ []) ws) refl

-- A host that stands in the list gets the workers with its name.
pub group-found :
    (name : List ℕ) (ids : List Identity) (hs : List Host) (h : Host)
    → find_host name hs ≡ some h
    → find_host name (group ids hs) ≡ some (with_workers (workers_on name ids) h)
unfolding group
group-found name [] hs h e = e ∙ rw (append-nil h.worker_ids) refl
group-found name (i ∷ ids) hs h e = elim (Bool-cases (same i.hostname name)) [
  | inl own ↦ rw own (
      group-found name ids (join i hs) (add_worker i.worker_id h)
        (find_host-join name i hs ∙ rw (own, e) refl)
      ∙ ap some (with_workers-added i.worker_id (workers_on name ids) h))
  | inr other ↦
      rw other (group-found name ids (join i hs) h (find_host-join name i hs ∙ rw (other, e) refl))
]

abbrev pub bare : List ℕ → Layout
bare name = record {
  hostname = name;
  sockets = [];
  total_physical_cores = 0;
  total_logical_cores = 0;
  mem_total_bytes = 0;
}

-- The host with these workers, the least of them its sentinel; none, if there are none.
abbrev pub host_of : List ℕ → (ℕ → Layout) → Option Host
host_of [] layout = none
host_of (w ∷ ws) layout =
    some (record {
      worker_ids = w ∷ ws;
      sentinel_worker_id = least w ws;
      layout = layout (least w ws);
    })

pub find_host-group :
    (name : List ℕ) (ids : List Identity) (hs : List Host)
    → find_host name hs ≡ none
    → find_host name (group ids hs) ≡ host_of (workers_on name ids) (λ w. bare name)
unfolding group
find_host-group name [] hs e = e
find_host-group name (i ∷ ids) hs e = elim (Bool-cases (same i.hostname name)) [
  | inl own ↦ rw own (
      group-found name ids (join i hs) (new_host i) (find_host-join name i hs ∙ rw (own, e) refl)
      ∙ rw (same→eq i.hostname name own) refl)
  | inr other ↦
      rw other
        (find_host-group name ids (join i hs) (find_host-join name i hs ∙ rw (other, e) refl))
]
