-- ===== src/Dns.antt =====
-- dns-server: the policy of names, tokens, zones, threat feeds and the query handler.
pub mod DomainPolicy
pub mod JwtVerify
pub mod Zones
pub mod Resilience
pub mod IocChecker
pub mod CacheManager
pub mod RateLimiter
pub mod Server
mod Samples
mod Tests
