-- ===== src/Topology.antt =====
-- topology_builder.cpp: the layout of the hosts that the ranks run on.
pub mod Bytes
pub mod Codec
pub mod RoundTrip
pub mod Hosts
pub mod Grouping
pub mod Snapshot
pub mod Latch
pub mod Cut
pub mod Examples
