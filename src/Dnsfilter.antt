-- ===== src/Dnsfilter.antt =====
-- The DNS filter (src/dnsfilter).
pub mod Name
pub mod Message
pub mod Upstream
pub mod DomainRules
pub mod QueryLog
pub mod Resolver
pub mod RuleRegistry
pub mod RuleService
pub mod CurrentBook
mod MessageTests
mod ResolverTests
mod RuleTests
