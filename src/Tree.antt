-- ===== src/Tree.antt =====
-- include/gempba/utils/tree.hpp and src/utils/tree.cpp: the forest of the processes.
pub mod Nodes
pub mod Shape
pub mod Frame
pub mod AddNext
pub mod Extended
pub mod Insertion
pub mod Removal
pub mod Popping
pub mod Front
pub mod Examples
