-- ===== src/Topology/RoundTrip.antt =====
-- A layout that is written and read again.
use gempba.Base.{ℕ, ◌%◌, ◌<◌, ◌≡◌, refl, sym, ◌∙◌, true, List, [], ◌∷◌, ◌++◌, length, All, arith}
use mathlib.Core.List.{append_assoc, append-nil}
use gempba.Topology.Bytes.{
  bytes_of, bound, put_uint, str_bytes, reading, uint-bytes_of, put_str-bytes, str-bytes,
}
use gempba.Topology.Codec.{
  Socket, Layout, put_cpu_ids, put_socket, put_sockets, serialize_node_topology, read_cpu_ids,
  read_socket, read_sockets, deserialize_node_topology, IsSized, HasSizes,
}

abbrev pub cpu_bytes : List ℕ → List ℕ
cpu_bytes [] = []
cpu_bytes (c ∷ cs) = bytes_of 4 c ++ cpu_bytes cs

abbrev pub socket_bytes : Socket → List ℕ
socket_bytes s =
    bytes_of 1 s.socket_id
    ++ (bytes_of 2 s.physical_cores
        ++ (bytes_of 2 s.logical_cores
            ++ (str_bytes s.name ++ (bytes_of 4 (length s.cpu_ids) ++ cpu_bytes s.cpu_ids))))

abbrev pub sockets_bytes : List Socket → List ℕ
sockets_bytes [] = []
sockets_bytes (s ∷ ss) = socket_bytes s ++ sockets_bytes ss

abbrev pub layout_bytes : Layout → List ℕ
layout_bytes l =
    str_bytes l.hostname
    ++ (bytes_of 2 l.total_physical_cores
        ++ (bytes_of 2 l.total_logical_cores
            ++ (bytes_of 8 l.mem_total_bytes
                ++ (bytes_of 2 (length l.sockets) ++ sockets_bytes l.sockets))))

modulo : (n m : ℕ) → n < m → n % m ≡ n
modulo n m h = grind arith

put_cpu_ids-bytes : (buf : List ℕ) (cs : List ℕ) → put_cpu_ids buf cs ≡ buf ++ cpu_bytes cs
unfolding put_cpu_ids put_uint
put_cpu_ids-bytes buf [] = sym (append-nil buf)
put_cpu_ids-bytes buf (c ∷ cs) =
    put_cpu_ids-bytes (put_uint 4 buf c) cs ∙ append_assoc buf (bytes_of 4 c) (cpu_bytes cs)

put_socket-bytes :
    (buf : List ℕ) (s : Socket) → IsSized s → put_socket buf s ≡ buf ++ socket_bytes s
unfolding put_socket put_uint
put_socket-bytes buf s v =
    rw
      (
        modulo (length s.cpu_ids) (bound 4) v.count,
        put_cpu_ids-bytes,
        put_str-bytes _ s.name v.name,
      )
      (simp append_assoc)

pub read_cpu_ids-bytes :
    (cs after : List ℕ)
    → All (λ c. c < bound 4) cs
    → read_cpu_ids (length cs) (reading (cpu_bytes cs ++ after)) ≡ (reading after, cs)
unfolding read_cpu_ids
read_cpu_ids-bytes [] after h = refl
read_cpu_ids-bytes (c ∷ cs) after h =
    rw
      (
        append_assoc (bytes_of 4 c) (cpu_bytes cs) after,
        uint-bytes_of 4 c (cpu_bytes cs ++ after) h.0,
        read_cpu_ids-bytes cs after h.1,
      )
      refl

pub read_socket-bytes :
    (s : Socket) (after : List ℕ)
    → IsSized s
    → read_socket (reading (socket_bytes s ++ after)) ≡ (reading after, s)
unfolding read_socket
read_socket-bytes s after v =
    let cpus = cpu_bytes s.cpu_ids ++ after in
    let counted = bytes_of 4 (length s.cpu_ids) ++ cpus in
    let named = str_bytes s.name ++ counted in
    let logical = bytes_of 2 s.logical_cores ++ named in
    simp append_assoc (
      rw
        (
          uint-bytes_of 1 s.socket_id (bytes_of 2 s.physical_cores ++ logical) v.socket_id,
          uint-bytes_of 2 s.physical_cores logical v.physical_cores,
          uint-bytes_of 2 s.logical_cores named v.logical_cores,
          str-bytes s.name counted v.name,
          uint-bytes_of 4 (length s.cpu_ids) cpus v.count,
          read_cpu_ids-bytes s.cpu_ids after v.cpu_ids,
        )
        refl)

put_sockets-bytes :
    (buf : List ℕ) (ss : List Socket)
    → All IsSized ss
    → put_sockets buf ss ≡ buf ++ sockets_bytes ss
unfolding put_sockets
put_sockets-bytes buf [] h = sym (append-nil buf)
put_sockets-bytes buf (s ∷ ss) h =
    put_sockets-bytes (put_socket buf s) ss h.1
    ∙ rw (put_socket-bytes buf s h.0) (append_assoc buf (socket_bytes s) (sockets_bytes ss))

read_sockets-bytes :
    (ss : List Socket) (after : List ℕ)
    → All IsSized ss
    → read_sockets (length ss) (reading (sockets_bytes ss ++ after)) ≡ (reading after, ss)
unfolding read_sockets
read_sockets-bytes [] after h = refl
read_sockets-bytes (s ∷ ss) after h =
    rw
      (
        append_assoc (socket_bytes s) (sockets_bytes ss) after,
        read_socket-bytes s (sockets_bytes ss ++ after) h.0,
        read_sockets-bytes ss after h.1,
      )
      refl

pub serialize-bytes : (l : Layout) → HasSizes l → serialize_node_topology [] l ≡ layout_bytes l
unfolding serialize_node_topology put_uint
serialize-bytes l v =
    rw
      (
        modulo (length l.sockets) (bound 2) v.count,
        put_str-bytes [] l.hostname v.hostname,
        put_sockets-bytes _ l.sockets v.sockets,
      )
      (simp append_assoc)

-- A layout whose fields and counts fit their widths, and whose texts have fewer than 65536 bytes, is read back
-- as it was written, whatever bytes come after it.
pub deserialize-serialize :
    (l : Layout) (after : List ℕ)
    → HasSizes l
    → deserialize_node_topology (serialize_node_topology [] l ++ after) ≡ (l, true)
unfolding deserialize_node_topology
deserialize-serialize l after v =
    let sockets = sockets_bytes l.sockets ++ after in
    let counted = bytes_of 2 (length l.sockets) ++ sockets in
    let memory = bytes_of 8 l.mem_total_bytes ++ counted in
    let logical = bytes_of 2 l.total_logical_cores ++ memory in
    rw (serialize-bytes l v) (
      simp append_assoc (
        rw
          (
            str-bytes l.hostname (bytes_of 2 l.total_physical_cores ++ logical) v.hostname,
            uint-bytes_of 2 l.total_physical_cores logical v.total_physical_cores,
            uint-bytes_of 2 l.total_logical_cores memory v.total_logical_cores,
            uint-bytes_of 8 l.mem_total_bytes counted v.mem_total_bytes,
            uint-bytes_of 2 (length l.sockets) sockets v.count,
            read_sockets-bytes l.sockets after v.sockets,
          )
          refl))
