-- ===== src/Ranks.antt =====
-- The list of the next processes of a worker: shift_left in utils.hpp.
pub mod Shift
pub mod Examples
