-- ===== src/Semi.antt =====
-- mpi_semi_centralized_scheduler.hpp: the center, which tells each worker to whom it may send its tasks.
pub mod Center
pub mod Loop
pub mod Notices
pub mod Told
pub mod Ending
pub mod Search
pub mod Available
pub mod Announcing
pub mod Channel
pub mod Worker
pub mod Drain
pub mod Cells
pub mod Quiet
pub mod Funneling
pub mod ChannelExamples
pub mod Examples
