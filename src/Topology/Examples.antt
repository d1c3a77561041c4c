-- ===== src/Topology/Examples.antt =====
-- Two ranks on one host, and a third on another.
use gempba.Base.{ℕ, ◌≡◌, true, List, [], ◌∷◌, ◌++◌, take, false, arith}
use gempba.Topology.Bytes.{bytes_of, put_str}
use gempba.Topology.Codec.{
  put_sockets, put_socket, put_cpu_ids, Socket, Layout, serialize_node_topology,
  deserialize_node_topology, IsSized, HasSizes,
}
use gempba.Topology.RoundTrip.{deserialize-serialize}
use gempba.Topology.Cut.{deserialize-cut}
use gempba.Topology.Hosts.{Identity, find_host, build_mpi_snapshot}
use gempba.Topology.Grouping.{host_of}
use gempba.Topology.Snapshot.{build_mpi_snapshot_lem}

abbrev socket : Socket
socket = record {
  socket_id = 0;
  name = b'e' ∷ b'p' ∷ [];
  physical_cores = 2;
  logical_cores = 4;
  cpu_ids = 0 ∷ 1 ∷ 2 ∷ 300 ∷ [];
}

abbrev layout : Layout
layout = record {
  hostname = b'n' ∷ [];
  sockets = socket ∷ [];
  total_physical_cores = 2;
  total_logical_cores = 4;
  mem_total_bytes = 17179869184;
}

socket-IsSized : IsSized socket
socket-IsSized = omega arith

layout-HasSizes : HasSizes layout
layout-HasSizes = record {
  hostname = omega arith;
  total_physical_cores = omega arith;
  total_logical_cores = omega arith;
  mem_total_bytes = omega arith;
  count = omega arith;
  sockets = (socket-IsSized, tt);
}

deserialize-serialize_example :
    deserialize_node_topology (serialize_node_topology [] layout ++ 7 ∷ []) ≡ (layout, true)
deserialize-serialize_example = deserialize-serialize layout (7 ∷ []) layout-HasSizes

deserialize-cut_example :
    (deserialize_node_topology (take 30 (serialize_node_topology [] layout))).1 ≡ false
unfolding serialize_node_topology put_sockets put_socket put_cpu_ids put_str bytes_of
deserialize-cut_example = deserialize-cut layout 30 layout-HasSizes (omega arith)

abbrev here : List ℕ
here = b'n' ∷ []

abbrev there : List ℕ
there = b'm' ∷ []

abbrev ranks : List Identity
ranks =
    record { hostname = here; worker_id = 0 }
    ∷ record { hostname = there; worker_id = 1 }
    ∷ record { hostname = here; worker_id = 2 }
    ∷ []

there-HasSizes : HasSizes (record layout { hostname = there })
there-HasSizes = record {
  hostname = omega arith;
  total_physical_cores = omega arith;
  total_logical_cores = omega arith;
  mem_total_bytes = omega arith;
  count = omega arith;
  sockets = (socket-IsSized, tt);
}

build_mpi_snapshot_lem_example :
    find_host here (build_mpi_snapshot (λ w. layout) ranks) ≡ host_of (0 ∷ 2 ∷ []) (λ w. layout)
build_mpi_snapshot_lem_example =
    build_mpi_snapshot_lem (λ w. layout) ranks here
      (layout-HasSizes, (there-HasSizes, (layout-HasSizes, tt)))
