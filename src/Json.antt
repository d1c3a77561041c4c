-- ===== src/Json.antt =====
-- json_serializer.cpp: the strings of the telemetry that goes to the clients.
pub mod Strings
pub mod RoundTrip
pub mod Examples
