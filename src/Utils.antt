-- ===== src/Utils.antt =====
-- The utilities (src/utils).
pub mod Retry
pub mod IpUtils
pub mod NetworkCheck
