-- ===== src/Telemetry.antt =====
-- The telemetry hub of each rank, telemetry_hub.cpp, and worker_frame_codec.hpp.
pub mod Counters
pub mod Traffic
pub mod Hub
pub mod Tick
pub mod World
pub mod Requests
pub mod Delivery
pub mod Effects
pub mod Parts
pub mod Invariant
pub mod Ticking
pub mod Answering
pub mod FrameCodec
pub mod Notes
pub mod Annotations
pub mod Examples
pub mod NoteExamples
