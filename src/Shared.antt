-- ===== src/Shared.antt =====
-- What the parts of the program share (src/shared).
pub mod MapLimit
mod Tests
