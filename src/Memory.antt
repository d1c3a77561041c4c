-- ===== src/Memory.antt =====
-- cgroup_memory.hpp.
pub mod Walk
pub mod Limit
pub mod Examples
