-- ===== src/Clock.antt =====
-- private/impl/telemetry/scheduler_clock.hpp: a rank's scheduler times, from its events.
pub mod Defs
pub mod Reading
pub mod Bounds
pub mod Latency
mod Examples
