-- ===== src/Score.antt =====
-- score.hpp, and what the schedulers and the node manager decide by scores.
pub mod Defs
pub mod Raw
pub mod Order
pub mod Manager
pub mod Best
pub mod Start
pub mod Examples
