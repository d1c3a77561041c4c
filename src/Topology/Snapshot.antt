-- ===== src/Topology/Snapshot.antt =====
-- The snapshot: each host once, with its workers and the layout that its sentinel probed.
use gempba.Base.{
  ℕ, ◌≡◌, refl, sym, ◌∙◌, ap, subst, ==_iff, ==_refl, ◌==◌, ltb, if◌then◌else◌, Bool, true, false,
  Bool-cases, ◌&&◌, ◌⊎◌, List, [], ◌∷◌, map, none, some, Option-cases, All, inl, inr, arith,
}
use mathlib.Core.List.{append-nil}
use gempba.Links.Store.{elem}
use gempba.Topology.Bytes.{uint, str}
use gempba.Topology.Codec.{
  Layout, serialize_node_topology, deserialize_node_topology, read_sockets, HasSizes,
}
use gempba.Topology.RoundTrip.{deserialize-serialize}
use gempba.Topology.Hosts.{
  Identity, Host, same, group, find_host, self_blob, with_layout, put_layout, merge_blob, merge,
  build_mpi_snapshot,
}
use gempba.Topology.Grouping.{
  same→eq, find_host-put_layout, workers_on, least, host_of, find_host-group, bare,
}

elem-either :
    (b : Bool) (x v w : ℕ) (ws : List ℕ)
    → elem x ((if b then v else w) ∷ ws) ≡ true
    → elem x (w ∷ v ∷ ws) ≡ true
elem-either true x v w ws h = ground arith
elem-either false x v w ws h = ground arith

elem-least : (w : ℕ) (ws : List ℕ) → elem (least w ws) (w ∷ ws) ≡ true
elem-least w [] = ground (arith, ==_refl w)
elem-least w (v ∷ ws) =
    elem-either (ltb v w) (least (if ltb v w then v else w) ws) v w ws
      (elem-least (if ltb v w then v else w) ws)

empty_unreadable : (deserialize_node_topology []).1 ≡ false
unfolding deserialize_node_topology uint str read_sockets
empty_unreadable = refl

merge_blob-read :
    (blob : List ℕ) (l : Layout) (hs : List Host)
    → deserialize_node_topology blob ≡ (l, true)
    → merge_blob blob hs ≡ put_layout l hs
unfolding merge_blob
merge_blob-read [] l hs e = let no_data = sym empty_unreadable ∙ ap (λ z. z.1) e in cc
merge_blob-read (b ∷ bs) l hs e = rw (e, merge_blob) refl

-- No host appears by a merge.
merge_blob-none :
    (name : List ℕ) (blob : List ℕ) (hs : List Host)
    → find_host name hs ≡ none
    → find_host name (merge_blob blob hs) ≡ none
unfolding merge_blob
merge_blob-none name [] hs e = e
merge_blob-none name (b ∷ bs) hs e = elim (Bool-cases (deserialize_node_topology (b ∷ bs)).1) [
  | inl read ↦
      rw read
        (find_host-put_layout name (deserialize_node_topology (b ∷ bs)).0 hs ∙ rw e (ground arith))
  | inr cut ↦ rw cut e
]

merge-none :
    (name : List ℕ) (blobs : List (List ℕ)) (hs : List Host)
    → find_host name hs ≡ none
    → find_host name (merge blobs hs) ≡ none
unfolding merge
merge-none name [] hs e = e
merge-none name (blob ∷ blobs) hs e =
    merge-none name blobs (merge_blob blob hs) (merge_blob-none name blob hs e)

module _ (probe : ℕ → Layout) (ids : List Identity) where
  abbrev own_layout : Identity → Layout
  own_layout i = record (probe i.worker_id) { hostname = i.hostname }

  abbrev hosts : List Host
  hosts = group ids []

  self_blob-cases :
      (i : Identity)
      → (self_blob probe hosts i ≡ [])
        ⊎ (self_blob probe hosts i ≡ serialize_node_topology [] (own_layout i))
  unfolding self_blob
  self_blob-cases i = elim (Option-cases (find_host i.hostname hosts)) [
    | inl absent ↦ inl (rw (absent, self_blob) refl)
    | inr (h, found) ↦ elim (Bool-cases (h.sentinel_worker_id == i.worker_id)) [
      | inl own ↦ inr (rw (found, self_blob, own) refl)
      | inr other ↦ inl (rw (found, self_blob, other) refl)
    ]
  ]

  merge_own :
      (i : Identity) (hs : List Host)
      → HasSizes (own_layout i)
      → merge_blob (serialize_node_topology [] (own_layout i)) hs ≡ put_layout (own_layout i) hs
  merge_own i hs v = merge_blob-read (serialize_node_topology [] (own_layout i)) (own_layout i) hs (
      ap deserialize_node_topology (sym (append-nil (serialize_node_topology [] (own_layout i))))
      ∙ deserialize-serialize (own_layout i) [] v)

  module _ (name : List ℕ) (w : ℕ) (ws : List ℕ) (workers : workers_on name ids ≡ w ∷ ws) where
    abbrev sentinel : ℕ
    sentinel = least w ws

    self_blob-here :
        (i : Identity)
        → same i.hostname name ≡ true
        → self_blob probe hosts i
          ≡ (if sentinel == i.worker_id then serialize_node_topology [] (own_layout i) else [])
    unfolding self_blob find_host
    self_blob-here i own =
        let found : find_host i.hostname hosts ≡ host_of (w ∷ ws) (λ v. bare name) =
          subst (λ z. find_host z hosts ≡ host_of (w ∷ ws) (λ v. bare name))
            (sym (same→eq i.hostname name own))
            (find_host-group name ids [] refl ∙ rw workers refl) in
        rw (found, self_blob) refl

    -- A rank's blob changes the host only if the rank is its sentinel.
    merge_blob-found :
        (i : Identity) (hs : List Host) (h : Host)
        → HasSizes (own_layout i)
        → find_host name hs ≡ some h
        → find_host name (merge_blob (self_blob probe hosts i) hs)
          ≡ some (
              if same i.hostname name && (sentinel == i.worker_id)
              then with_layout (probe sentinel) h
              else h)
    unfolding merge_blob
    merge_blob-found i hs h v e = elim (Bool-cases (same i.hostname name)) [
      | inl own ↦ elim (Bool-cases (sentinel == i.worker_id)) [
        | inl is_own ↦
            rw (self_blob-here i own, own, is_own, merge_own i hs v)
              (find_host-put_layout name (own_layout i) hs
                ∙ rw (own, e)
                    (ap (λ z. some (with_layout (probe z) h))
                      (sym ((==_iff sentinel i.worker_id).0 is_own))))
        | inr another ↦ rw (self_blob-here i own, own, another) e
      ]
      | inr other ↦ elim (self_blob-cases i) [
        | inl empty ↦ rw (other, empty) e
        | inr full ↦
            rw (other, full, merge_own i hs v)
              (find_host-put_layout name (own_layout i) hs ∙ rw (other, e) refl)
      ]
    ]

    merge-found :
        (rest : List Identity) (hs : List Host) (h : Host)
        → All (λ i. HasSizes (own_layout i)) rest
        → find_host name hs ≡ some h
        → find_host name (merge (map (self_blob probe hosts) rest) hs)
          ≡ some
              (if elem sentinel (workers_on name rest) then with_layout (probe sentinel) h else h)
    unfolding merge
    merge-found [] hs h v e = e
    merge-found (i ∷ rest) hs h v e =
        merge-found rest (merge_blob (self_blob probe hosts i) hs) _ v.1
          (merge_blob-found i hs h v.0 e)
        ∙ ap some (elim (Bool-cases (same i.hostname name)) [
          | inl own ↦ elim (Bool-cases (sentinel == i.worker_id)) [
            | inl is_own ↦ rw (own, is_own) (ground arith)
            | inr another ↦ rw (own, another) refl
          ]
          | inr other ↦ rw other refl
        ])

    snapshot-found :
        All (λ i. HasSizes (own_layout i)) ids
        → find_host name (build_mpi_snapshot probe ids)
          ≡ host_of (w ∷ ws) (λ v. record (probe v) { hostname = name })
    unfolding build_mpi_snapshot find_host
    snapshot-found v =
        merge-found ids hosts
          (record { worker_ids = w ∷ ws; sentinel_worker_id = sentinel; layout = bare name }) v
          (find_host-group name ids [] refl ∙ rw workers refl)
        ∙ rw (workers, elem-least w ws) refl

workers_cases : (ws : List ℕ) → (ws ≡ []) ⊎ ((v : ℕ) × (vs : List ℕ) × (ws ≡ v ∷ vs))
workers_cases [] = inl refl
workers_cases (v ∷ vs) = inr (v, vs, refl)

-- Each name that a rank has stands for one host, with the ranks of that name in their order, the least of them
-- the sentinel, and the layout that this rank probed; no other name stands for a host. The layouts fit the widths
-- of the format.
pub build_mpi_snapshot_lem :
    (probe : ℕ → Layout) (ids : List Identity) (name : List ℕ)
    → All (λ i. HasSizes (record (probe i.worker_id) { hostname = i.hostname })) ids
    → find_host name (build_mpi_snapshot probe ids)
      ≡ host_of (workers_on name ids) (λ w. record (probe w) { hostname = name })
unfolding build_mpi_snapshot find_host
build_mpi_snapshot_lem probe ids name v = elim (workers_cases (workers_on name ids)) [
  | inl nobody ↦ rw nobody (
      merge-none name (map (self_blob probe (group ids [])) ids) (group ids [])
        (find_host-group name ids [] refl ∙ rw nobody refl))
  | inr (w, ws, workers) ↦ rw workers (snapshot-found probe ids name w ws workers v)
]
