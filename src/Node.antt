-- ===== src/Node.antt =====
-- include/gempba/detail/nodes/node_core_impl.hpp: one node of the search tree, and the two load
-- balancers' handling of it.
pub mod Life
pub mod Branching
pub mod Consumption
pub mod WorkStealing
pub mod Submission
mod Examples
