-- ===== src/Outbox.antt =====
-- private/impl/telemetry/client_outbox.hpp: the lines that wait to reach one telemetry client.
pub mod Box
pub mod Push
pub mod Flush
mod Examples
