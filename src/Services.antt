-- ===== src/Services.antt =====
-- The services (src/services).
pub mod HealthTracker
pub mod Database
pub mod DnsChecker
pub mod JiraClient
pub mod HealthReporter
pub mod Logger
