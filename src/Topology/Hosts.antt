-- ===== src/Topology/Hosts.antt =====
-- topology_builder.cpp: build_mpi_snapshot. The identities of all ranks and the gathered blobs are those of
-- MPI_Allgather and MPI_Allgatherv, which hand every rank the contributions of all in the order of the ranks;
-- `probe` is what each rank's probes of its machine say. The map from hostnames to places is a search by the
-- hostname.
use gempba.Base.{
  ℕ, ◌==◌, ltb, if◌then◌else◌, Bool, true, false, ◌&&◌, List, [], ◌∷◌, ◌++◌, map, Option, none,
  some,
}
use gempba.Topology.Codec.{Layout, serialize_node_topology, deserialize_node_topology}

pub record Identity : Type 0 where
  pub hostname : List ℕ
  pub worker_id : ℕ

-- A topology_node: the workers, and the layout with the hostname.
pub record Host : Type 0 where
  pub worker_ids : List ℕ
  pub sentinel_worker_id : ℕ
  pub layout : Layout

-- Equality of hostnames
abbrev pub same : List ℕ → List ℕ → Bool
same [] [] = true
same [] (y ∷ ys) = false
same (x ∷ xs) [] = false
same (x ∷ xs) (y ∷ ys) = x == y && same xs ys

abbrev pub new_host : Identity → Host
new_host i = record {
  worker_ids = i.worker_id ∷ [];
  sentinel_worker_id = i.worker_id;
  layout = record {
    hostname = i.hostname;
    sockets = [];
    total_physical_cores = 0;
    total_logical_cores = 0;
    mem_total_bytes = 0;
  };
}

abbrev pub add_worker : ℕ → Host → Host
add_worker w h = record h {
  worker_ids = h.worker_ids ++ w ∷ [];
  sentinel_worker_id = if ltb w h.sentinel_worker_id then w else h.sentinel_worker_id;
}

-- One round of the loop over the identities.
unfoldable pub join : Identity → List Host → List Host
join i [] = new_host i ∷ []
join i (h ∷ hs) =
    if same h.layout.hostname i.hostname then add_worker i.worker_id h ∷ hs else h ∷ join i hs

unfoldable pub group : List Identity → List Host → List Host
group [] hs = hs
group (i ∷ is) hs = group is (join i hs)

unfoldable pub find_host : List ℕ → List Host → Option Host
find_host name [] = none
find_host name (h ∷ hs) = if same h.layout.hostname name then some h else find_host name hs

-- What a rank contributes: its layout, if it is the sentinel of its host.
unfoldable pub self_blob : (ℕ → Layout) → List Host → Identity → List ℕ
self_blob probe hosts i = elim (find_host i.hostname hosts) [
  | none ↦ []
  | some h ↦
      if h.sentinel_worker_id == i.worker_id
      then serialize_node_topology [] (record (probe i.worker_id) { hostname = i.hostname })
      else []
]

abbrev pub with_layout : Layout → Host → Host
with_layout l h = record h {
  layout = record h.layout {
    sockets = l.sockets;
    total_physical_cores = l.total_physical_cores;
    total_logical_cores = l.total_logical_cores;
    mem_total_bytes = l.mem_total_bytes;
  };
}

unfoldable pub put_layout : Layout → List Host → List Host
put_layout l [] = []
put_layout l (h ∷ hs) =
    if same h.layout.hostname l.hostname then with_layout l h ∷ hs else h ∷ put_layout l hs

-- One round of the loop over the gathered blobs: an empty one is passed over, and so is one that cannot be read.
unfoldable pub merge_blob : List ℕ → List Host → List Host
merge_blob [] hs = hs
merge_blob (b ∷ bs) hs =
    let (l, ok) = deserialize_node_topology (b ∷ bs) in if ok then put_layout l hs else hs

unfoldable pub merge : List (List ℕ) → List Host → List Host
merge [] hs = hs
merge (blob ∷ blobs) hs = merge blobs (merge_blob blob hs)

unfoldable pub build_mpi_snapshot : (ℕ → Layout) → List Identity → List Host
build_mpi_snapshot probe ids =
    let hosts = group ids [] in merge (map (self_blob probe hosts) ids) hosts
