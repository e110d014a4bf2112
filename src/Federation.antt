-- ===== src/Federation.antt =====
-- The peer-to-peer federation layer (src/federation).
pub mod NonceCache
mod Tests
