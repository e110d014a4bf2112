-- ===== src/Launch.antt =====
-- Starting and stopping sets of services (src/launch).
pub mod Order
pub mod Orchestrator
mod Tests
mod OrchestratorTests
