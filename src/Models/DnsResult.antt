-- ===== src/Models/DnsResult.antt =====
-- src/models/dns_result.py: the result of one DNSBL query. A timestamp is a number that the model
-- only carries along.
use postal_dnsbl_monitor.Common.{ℕ, Str, Bool, true, false}

pub data DnsStatus : Type 0 where
  listed not_listed unknown : DnsStatus

pub record DnsResult : Type 0 where
  pub ip : Str
  pub zone : Str
  pub status : DnsStatus
  pub response_data : Str
  pub timestamp : ℕ

-- `status == DNSStatus.LISTED`
abbrev pub status_is_listed : DnsStatus → Bool
status_is_listed listed = true
status_is_listed _ = false

-- `status == DNSStatus.UNKNOWN`
abbrev pub status_is_unknown : DnsStatus → Bool
status_is_unknown unknown = true
status_is_unknown _ = false

abbrev pub is_listed : DnsResult → Bool
is_listed r = status_is_listed r.status

abbrev pub is_unknown : DnsResult → Bool
is_unknown r = status_is_unknown r.status
