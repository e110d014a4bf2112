-- ===== src/LocalControl.antt =====
-- The local control channel under src/local-control.
pub mod LineFramer
pub mod AdoptedProcessReaper
pub mod BackendReadiness
mod Tests
mod ReadinessTests
