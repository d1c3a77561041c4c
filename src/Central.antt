-- ===== src/Central.antt =====
-- mpi_centralized_scheduler.hpp and .cpp, and centralized_utils.hpp.
pub mod Tasks
pub mod Dispatch
pub mod Center
pub mod Loop
pub mod Counts
pub mod Invariant
pub mod Statistics
pub mod Notices
pub mod Told
pub mod Status
pub mod Worker
pub mod Drain
pub mod Run
pub mod Results
pub mod Examples
