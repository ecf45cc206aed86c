-- ===== src/Telemetry.antt =====
-- services/telemetry/internal: the intake of field signals, their store, and the recommendations.
pub mod Dedup
pub mod Recommend
pub mod Series
mod Tests
