-- ===== src/Log.antt =====
-- The log pipeline (src/log).
pub mod Circular
pub mod Level
pub mod RingBuffer
mod Tests
