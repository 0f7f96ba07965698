-- ===== src/Models/DnsblHealth.antt =====
-- src/models/dnsbl_health.py: the health of one DNSBL zone, and the data of the report. A failure
-- rate is kept as its two integers; Python's quotient of them is 1.0 exactly when they are equal
-- (below 2^53), and times are whole milliseconds.
pub mod Record
pub mod Report
use postal_dnsbl_monitor.Common.{
  ℕ, zero, suc, ◌+◌, Str, codes, Bool, true, false, Option, none, some, List, [], ◌∷◌, ◌==◌,
  if◌then◌else◌,
}
use postal_dnsbl_monitor.Common.Int.{ℤ}
use postal_dnsbl_monitor.Common.Dict.{Dict, lookup, insert}
use postal_dnsbl_monitor.Common.Exec.{
  Exec, Result, ok, err, value_error, pure, raise, modify, ◌>>=◌, ◌>>◌,
}

-- a float that the source computes as `numerator / denominator`
pub record Ratio : Type 0 where
  pub numerator : ℕ
  pub denominator : ℕ

pub record DnsblHealthRecord : Type 0 where
  pub zone : Str
  pub checks_performed : ℕ
  pub successful_checks : ℕ
  pub failed_checks : ℕ
  pub failure_types : Dict ℕ

-- `DNSBLHealthRecord(zone=zone)`
abbrev pub new_record : Str → DnsblHealthRecord
new_record zone = record {
  zone = zone;
  checks_performed = 0;
  successful_checks = 0;
  failed_checks = 0;
  failure_types = [];
}

unfoldable pub failure_rate : DnsblHealthRecord → Ratio
failure_rate r =
    if r.checks_performed == 0
    then record { numerator = 0; denominator = 1 }
    else record { numerator = r.failed_checks; denominator = r.checks_performed }

-- "healthy" and "broken"
pub data HealthStatus : Type 0 where
  healthy broken : HealthStatus

-- the test `self.failure_rate == 1.0`
unfoldable pub is_one : Ratio → Bool
is_one q = q.numerator == q.denominator

unfoldable pub status : DnsblHealthRecord → HealthStatus
unfolding failure_rate is_one
status r = if is_one (failure_rate r) then broken else healthy

-- `d.get(k, 0)`
abbrev pub get_or_zero : Option ℕ → ℕ
get_or_zero none = 0
get_or_zero (some n) = n

abbrev pub missing_failure_type : Exec DnsblHealthRecord Unit
missing_failure_type = raise (value_error (codes "failure_type is required when success=False"))

-- the branch of `record_check` for a failed check
unfoldable pub record_failure : Option Str → Exec DnsblHealthRecord Unit
record_failure none = missing_failure_type
record_failure (some failure_type) = modify λ r. record r {
  failed_checks = r.failed_checks + 1;
  failure_types =
      insert failure_type (get_or_zero (lookup failure_type r.failure_types) + 1) r.failure_types;
}

-- `DNSBLHealthRecord.record_check`
unfoldable pub record_check : Bool → Option Str → Exec DnsblHealthRecord Unit
unfolding record_failure
record_check success failure_type = do
  modify λ r. record r { checks_performed = r.checks_performed + 1 }
  if success
      then modify (λ r. record r { successful_checks = r.successful_checks + 1 })
      else record_failure failure_type

pub record NetworkConnectivityResult : Type 0 where
  pub check_enabled : Bool
  pub cloudflare_reachable : Option Bool
  pub google_reachable : Option Bool

pub record HealthSummary : Type 0 where
  pub timestamp : ℕ
  pub total_dnsbls : ℕ
  pub broken_dnsbls : ℕ
  pub network_issue_detected : Bool
  pub total_ip_checks : ℕ
  pub execution_duration_ms : ℤ
  pub dnsbl_health : List DnsblHealthRecord
  pub network_connectivity : Option NetworkConnectivityResult
