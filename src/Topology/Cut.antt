-- ===== src/Topology/Cut.antt =====
-- A layout of which bytes are missing is refused.
use gempba.Base.{
  ℕ, zero, suc, ◌<◌, ◌≡◌, subst, false, List, [], ◌∷◌, ◌++◌, length, take, All, arith,
}
use gempba.Topology.Bytes.{ByteReader, bytes_of, uint, str, str_bytes, uint-bytes_of, str-bytes}
use gempba.Topology.Codec.{
  Socket, Layout, serialize_node_topology, read_cpu_ids, read_socket, read_sockets,
  deserialize_node_topology, IsSized, HasSizes,
}
use gempba.Topology.RoundTrip.{
  cpu_bytes, socket_bytes, sockets_bytes, layout_bytes, serialize-bytes, read_socket-bytes,
}
use gempba.Topology.Latch.{
  Latches, Refuses, Refuses-then, uint-Latches, str-Latches, read_cpu_ids-Latches, uint-Refuses,
  str-Refuses, read_cpu_ids-Refuses,
}

-- The reads of a socket, from each one on.
abbrev cpus : ByteReader → ByteReader
cpus r = (read_cpu_ids (uint 4 r).1 (uint 4 r).0).0

abbrev logical_on : ByteReader → ByteReader
logical_on r = cpus (str (uint 2 r).0).0

cpus-Latches : Latches cpus
cpus-Latches r h = read_cpu_ids-Latches (uint 4 r).1 (uint 4 r).0 (uint-Latches 4 r h)

logical_on-Latches : Latches logical_on
logical_on-Latches r h =
    cpus-Latches (str (uint 2 r).0).0 (str-Latches (uint 2 r).0 (uint-Latches 2 r h))

read_socket-Latches : Latches (λ r. (read_socket r).0)
unfolding read_socket
read_socket-Latches r h =
    logical_on-Latches (uint 2 (uint 1 r).0).0 (uint-Latches 2 (uint 1 r).0 (uint-Latches 1 r h))

read_socket-Refuses : (s : Socket) → IsSized s → Refuses (λ r. (read_socket r).0) (socket_bytes s)
unfolding read_socket
read_socket-Refuses s v =
    let counted = bytes_of 4 (length s.cpu_ids) ++ cpu_bytes s.cpu_ids in
    let named = str_bytes s.name ++ counted in
    let logical = bytes_of 2 s.logical_cores ++ named in
    Refuses-then (uint 1) (λ u r. logical_on (uint 2 r).0) (bytes_of 1 s.socket_id)
      (bytes_of 2 s.physical_cores ++ logical) s.socket_id
      (λ after. uint-bytes_of 1 s.socket_id after v.socket_id) (uint-Refuses 1 s.socket_id)
      (λ u r h. logical_on-Latches (uint 2 r).0 (uint-Latches 2 r h))
      (Refuses-then (uint 2) (λ u. logical_on) (bytes_of 2 s.physical_cores) logical
        s.physical_cores (λ after. uint-bytes_of 2 s.physical_cores after v.physical_cores)
        (uint-Refuses 2 s.physical_cores) (λ u. logical_on-Latches)
        (Refuses-then (uint 2) (λ u r. cpus (str r).0) (bytes_of 2 s.logical_cores) named
          s.logical_cores (λ after. uint-bytes_of 2 s.logical_cores after v.logical_cores)
          (uint-Refuses 2 s.logical_cores) (λ u r h. cpus-Latches (str r).0 (str-Latches r h))
          (Refuses-then str (λ u. cpus) (str_bytes s.name) counted s.name
            (λ after. str-bytes s.name after v.name) (str-Refuses s.name v.name) (λ u. cpus-Latches)
            (Refuses-then (uint 4) (λ u r. (read_cpu_ids u r).0) (bytes_of 4 (length s.cpu_ids))
              (cpu_bytes s.cpu_ids) (length s.cpu_ids)
              (λ after. uint-bytes_of 4 (length s.cpu_ids) after v.count)
              (uint-Refuses 4 (length s.cpu_ids)) read_cpu_ids-Latches
              (read_cpu_ids-Refuses s.cpu_ids v.cpu_ids)))))

read_sockets-Latches : (n : ℕ) → Latches (λ r. (read_sockets n r).0)
unfolding read_sockets
read_sockets-Latches zero r h = h
read_sockets-Latches (suc n) r h = ground arith

read_sockets-Refuses :
    (ss : List Socket)
    → All IsSized ss
    → Refuses (λ r. (read_sockets (length ss) r).0) (sockets_bytes ss)
unfolding read_sockets
read_sockets-Refuses [] h m e = elim e [ ]
read_sockets-Refuses (s ∷ ss) h m e =
    Refuses-then read_socket (λ v r. (read_sockets (length ss) r).0) (socket_bytes s)
      (sockets_bytes ss) s (λ after. read_socket-bytes s after h.0) (read_socket-Refuses s h.0)
      (λ v. read_sockets-Latches (length ss)) (read_sockets-Refuses ss h.1) m e

abbrev sockets_on : ByteReader → ByteReader
sockets_on r = (read_sockets (uint 2 r).1 (uint 2 r).0).0

sockets_on-Latches : Latches sockets_on
sockets_on-Latches r h = read_sockets-Latches (uint 2 r).1 (uint 2 r).0 (uint-Latches 2 r h)

abbrev memory_on : ByteReader → ByteReader
memory_on r = sockets_on (uint 8 r).0

memory_on-Latches : Latches memory_on
memory_on-Latches r h = sockets_on-Latches (uint 8 r).0 (uint-Latches 8 r h)

abbrev cores_on : ByteReader → ByteReader
cores_on r = memory_on (uint 2 (uint 2 r).0).0

cores_on-Latches : Latches cores_on
cores_on-Latches r h =
    memory_on-Latches (uint 2 (uint 2 r).0).0 (uint-Latches 2 (uint 2 r).0 (uint-Latches 2 r h))

layout-Refuses : (l : Layout) → HasSizes l → Refuses (λ r. cores_on (str r).0) (layout_bytes l)
layout-Refuses l v =
    let counted = bytes_of 2 (length l.sockets) ++ sockets_bytes l.sockets in
    let memory = bytes_of 8 l.mem_total_bytes ++ counted in
    let logical = bytes_of 2 l.total_logical_cores ++ memory in
    Refuses-then str (λ u. cores_on) (str_bytes l.hostname)
      (bytes_of 2 l.total_physical_cores ++ logical) l.hostname
      (λ after. str-bytes l.hostname after v.hostname) (str-Refuses l.hostname v.hostname)
      (λ u. cores_on-Latches)
      (Refuses-then (uint 2) (λ u r. memory_on (uint 2 r).0) (bytes_of 2 l.total_physical_cores)
        logical l.total_physical_cores
        (λ after. uint-bytes_of 2 l.total_physical_cores after v.total_physical_cores)
        (uint-Refuses 2 l.total_physical_cores)
        (λ u r h. memory_on-Latches (uint 2 r).0 (uint-Latches 2 r h))
        (Refuses-then (uint 2) (λ u. memory_on) (bytes_of 2 l.total_logical_cores) memory
          l.total_logical_cores
          (λ after. uint-bytes_of 2 l.total_logical_cores after v.total_logical_cores)
          (uint-Refuses 2 l.total_logical_cores) (λ u. memory_on-Latches)
          (Refuses-then (uint 8) (λ u. sockets_on) (bytes_of 8 l.mem_total_bytes) counted
            l.mem_total_bytes (λ after. uint-bytes_of 8 l.mem_total_bytes after v.mem_total_bytes)
            (uint-Refuses 8 l.mem_total_bytes) (λ u. sockets_on-Latches)
            (Refuses-then (uint 2) (λ u r. (read_sockets u r).0) (bytes_of 2 (length l.sockets))
              (sockets_bytes l.sockets) (length l.sockets)
              (λ after. uint-bytes_of 2 (length l.sockets) after v.count)
              (uint-Refuses 2 (length l.sockets)) read_sockets-Latches
              (read_sockets-Refuses l.sockets v.sockets)))))

-- A layout that was written, and that fits the widths of the format, is refused by the reader if bytes are
-- missing at its end, whatever their number.
pub deserialize-cut :
    (l : Layout) (m : ℕ)
    → HasSizes l
    → m < length (serialize_node_topology [] l)
    → (deserialize_node_topology (take m (serialize_node_topology [] l))).1 ≡ false
unfolding deserialize_node_topology
deserialize-cut l m v h =
    rw (serialize-bytes l v)
      (layout-Refuses l v m (subst (λ bs. m < length bs) (serialize-bytes l v) h))
