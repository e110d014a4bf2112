-- ===== src/Netwatch.antt =====
-- Network watch under src/netwatch.
pub mod BlockRegistry
pub mod BlockService
pub mod DnsAnswerCache
mod CacheTests
mod Tests
