-- ===== src/Models.antt =====
-- The data models (src/models).
pub mod DnsResult
pub mod IpRecord
pub mod StateTransition
pub mod DnsblHealth
