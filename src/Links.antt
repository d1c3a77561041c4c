-- ===== src/Links.antt =====
-- node_core_impl.hpp: the links between the nodes.
pub mod Store
pub mod Distinct
pub mod Linked
pub mod Creation
