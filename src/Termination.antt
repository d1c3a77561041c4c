-- ===== src/Termination.antt =====
-- private/impl/schedulers/termination_detector.hpp, and its use by the two MPI schedulers
-- (mpi_semi_centralized_scheduler.hpp, mpi_centralized_scheduler.hpp): the detector of one rank, what
-- a rank does with it, and the whole computation of all ranks as interleaved steps.
pub mod Detector
pub mod Handlers
pub mod Network
pub mod Owing
pub mod Invariant
pub mod Moves
pub mod Safety
pub mod Progress
mod Examples
