-- ===== src/Horizontal.antt =====
-- quasi_horizontal_load_balancer.hpp: lowering the root of a thread, and handing nodes over.
pub mod Roots
pub mod Descent
pub mod Lowering
pub mod Agreement
pub mod Steps
pub mod Sending
pub mod Submission
pub mod Spine
pub mod Parting
pub mod Trimming
pub mod Fixing
pub mod Order
pub mod Handing
pub mod Sent
pub mod Examples
pub mod SendingExamples
