-- ===== src/Scanner.antt =====
-- The scanner under src/scanner.
pub mod Downtime
pub mod HealthState
pub mod DowntimeAlert
mod Tests
mod AlertTests
