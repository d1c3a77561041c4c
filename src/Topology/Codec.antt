-- ===== src/Topology/Codec.antt =====
-- topology_builder.cpp: the layout of a host as bytes, and back.
use gempba.Base.{ℕ, zero, suc, ◌%◌, ◌<◌, if◌then◌else◌, Bool, true, List, [], ◌∷◌, length, All}
use gempba.Topology.Bytes.{ByteReader, bound, put_uint, uint, put_str, str}

pub record Socket : Type 0 where
  pub socket_id : ℕ
  pub name : List ℕ
  pub physical_cores : ℕ
  pub logical_cores : ℕ
  pub cpu_ids : List ℕ

-- A topology_node, but for its workers.
pub record Layout : Type 0 where
  pub hostname : List ℕ
  pub sockets : List Socket
  pub total_physical_cores : ℕ
  pub total_logical_cores : ℕ
  pub mem_total_bytes : ℕ

unfoldable pub put_cpu_ids : List ℕ → List ℕ → List ℕ
unfolding put_uint
put_cpu_ids buf [] = buf
put_cpu_ids buf (c ∷ cs) = put_cpu_ids (put_uint 4 buf c) cs

-- A size_t that is cast to so many bytes is reduced.
unfoldable pub put_socket : List ℕ → Socket → List ℕ
unfolding put_uint
put_socket buf s =
    let b1 = put_uint 1 buf s.socket_id in
    let b2 = put_uint 2 b1 s.physical_cores in
    let b3 = put_uint 2 b2 s.logical_cores in
    let b4 = put_str b3 s.name in put_cpu_ids (put_uint 4 b4 (length s.cpu_ids % bound 4)) s.cpu_ids

unfoldable pub put_sockets : List ℕ → List Socket → List ℕ
put_sockets buf [] = buf
put_sockets buf (s ∷ ss) = put_sockets (put_socket buf s) ss

unfoldable pub serialize_node_topology : List ℕ → Layout → List ℕ
unfolding put_uint
serialize_node_topology out l =
    let b1 = put_str out l.hostname in
    let b2 = put_uint 2 b1 l.total_physical_cores in
    let b3 = put_uint 2 b2 l.total_logical_cores in
    let b4 = put_uint 8 b3 l.mem_total_bytes in
    put_sockets (put_uint 2 b4 (length l.sockets % bound 2)) l.sockets

-- The two loops, by the rounds left: a round is made while the reader is fine.
unfoldable pub read_cpu_ids : ℕ → ByteReader → ByteReader × List ℕ
read_cpu_ids zero r = (r, [])
read_cpu_ids (suc n) r =
    let rest = read_cpu_ids n (uint 4 r).0 in
    if r.ok then (rest.0, (uint 4 r).1 ∷ rest.1) else (r, [])

unfoldable pub read_socket : ByteReader → ByteReader × Socket
read_socket r =
    let (r1, socket_id) = uint 1 r in
    let (r2, physical) = uint 2 r1 in
    let (r3, logical) = uint 2 r2 in
    let (r4, name) = str r3 in
    let (r5, count) = uint 4 r4 in
    let (r6, cpu_ids) = read_cpu_ids count r5 in
    (
      r6,
      record {
        socket_id = socket_id;
        name = name;
        physical_cores = physical;
        logical_cores = logical;
        cpu_ids = cpu_ids;
      },
    )

unfoldable pub read_sockets : ℕ → ByteReader → ByteReader × List Socket
read_sockets zero r = (r, [])
read_sockets (suc n) r =
    let rest = read_sockets n (read_socket r).0 in
    if r.ok then (rest.0, (read_socket r).1 ∷ rest.1) else (r, [])

-- With whether the data were enough.
unfoldable pub deserialize_node_topology : List ℕ → Layout × Bool
deserialize_node_topology data_bytes =
    let (r1, hostname) = str (record { rest = data_bytes; ok = true }) in
    let (r2, physical) = uint 2 r1 in
    let (r3, logical) = uint 2 r2 in
    let (r4, memory) = uint 8 r3 in
    let (r5, count) = uint 2 r4 in
    let (r6, sockets) = read_sockets count r5 in
    (
      record {
        hostname = hostname;
        sockets = sockets;
        total_physical_cores = physical;
        total_logical_cores = logical;
        mem_total_bytes = memory;
      },
      r6.ok,
    )

-- The widths of the fields, and what the counts can hold.
pub record IsSized (s : Socket) : Type 0 where
  pub socket_id : s.socket_id < bound 1
  pub physical_cores : s.physical_cores < bound 2
  pub logical_cores : s.logical_cores < bound 2
  pub name : length s.name < 65536
  pub count : length s.cpu_ids < bound 4
  pub cpu_ids : All (λ c. c < bound 4) s.cpu_ids

pub record HasSizes (l : Layout) : Type 0 where
  pub hostname : length l.hostname < 65536
  pub total_physical_cores : l.total_physical_cores < bound 2
  pub total_logical_cores : l.total_logical_cores < bound 2
  pub mem_total_bytes : l.mem_total_bytes < bound 8
  pub count : length l.sockets < bound 2
  pub sockets : All IsSized l.sockets
