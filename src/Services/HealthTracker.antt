-- ===== src/Services/HealthTracker.antt =====
-- src/services/health_tracker.py: the health of every zone during a run. The clocks, `time()` and
-- `datetime.now`, are arguments, in whole milliseconds.
pub mod Counts
pub mod Summary
use postal_dnsbl_monitor.Common.{
  ℕ, zero, suc, ◌+◌, ◌*◌, Str, codes, Bool, true, false, not, ◌&&◌, ◌||◌, Option, none, some, List,
  [], ◌∷◌, ◌++◌, ◌==◌, leb, if◌then◌else◌, length,
}
use postal_dnsbl_monitor.Common.Int.{ℤ, pos, sub_ℕ}
use postal_dnsbl_monitor.Common.Dict.{Dict, lookup, insert, values}
use postal_dnsbl_monitor.Common.Exec.{
  Exec, Result, ok, err, value_error, zero_division, raise, modify, ◌>>=◌, ◌>>◌,
}
use postal_dnsbl_monitor.Models.DnsblHealth
use postal_dnsbl_monitor.Models.DnsblHealth.{
  DnsblHealthRecord, NetworkConnectivityResult, HealthSummary, HealthStatus, healthy, broken,
  new_record, status,
}

pub record HealthTracker : Type 0 where
  pub health_records : Dict DnsblHealthRecord
  pub start_time : Option ℕ
  pub total_ip_checks : ℕ

-- `{zone: DNSBLHealthRecord(zone=zone) for zone in dnsbl_zones}`
unfoldable pub records_for : Dict DnsblHealthRecord → List Str → Dict DnsblHealthRecord
records_for d [] = d
records_for d (zone ∷ zones) = records_for (insert zone (new_record zone) d) zones

-- `HealthTracker(dnsbl_zones)`
unfoldable pub init : List Str → Result HealthTracker
unfolding records_for
init [] = err (value_error (codes "dnsbl_zones must contain at least one zone"))
init (zone ∷ zones) = ok (record {
  health_records = records_for [] (zone ∷ zones);
  start_time = none;
  total_ip_checks = 0;
})

abbrev pub start_at : ℕ → Option ℕ → Option ℕ
start_at now none = some now
start_at now (some t) = some t

unfoldable pub record_ip_check_start : ℕ → Exec HealthTracker Unit
record_ip_check_start now = modify λ t. record t {
  start_time = start_at now t.start_time;
  total_ip_checks = t.total_ip_checks + 1;
}

unfoldable pub unknown_zone : Str → Str
unknown_zone zone = codes "Unknown DNSBL zone: " ++ zone

-- the lookup in `record_check`, and the call on the record that it finds
unfoldable pub check_record :
    Str → Bool → Option Str → Option DnsblHealthRecord → Exec HealthTracker Unit
check_record zone success failure_type none t = raise (value_error (unknown_zone zone)) t
check_record zone success failure_type (some r) t =
    let (result, r') = DnsblHealth.record_check success failure_type r in
    (result, record t { health_records = insert zone r' t.health_records })

-- `HealthTracker.record_check`
unfoldable pub record_check : Str → Bool → Option Str → Exec HealthTracker Unit
unfolding check_record
record_check zone success failure_type t =
    check_record zone success failure_type (lookup zone t.health_records) t

abbrev pub is_broken : HealthStatus → Bool
is_broken broken = true
is_broken healthy = false

-- `sum(1 for record in records if record.status == "broken")`
unfoldable pub count_broken : List DnsblHealthRecord → ℕ
count_broken [] = 0
count_broken (r ∷ rs) = (if is_broken (status r) then 1 else 0) + count_broken rs

-- `bool(x)` for a Boolean that may be None
abbrev pub truthy : Option Bool → Bool
truthy none = false
truthy (some b) = b

unfoldable pub unreachable : Option NetworkConnectivityResult → Bool
unreachable none = false
unreachable (some c) =
    if c.check_enabled
    then not (truthy c.cloudflare_reachable || truthy c.google_reachable)
    else false

-- the test `broken_dnsbls / total_dnsbls >= 0.5`, for a total that is not 0
unfoldable pub network_issue : ℕ → ℕ → Option NetworkConnectivityResult → Bool
unfolding unreachable
network_issue broken_dnsbls total_dnsbls connectivity =
    if leb total_dnsbls (2 * broken_dnsbls) then unreachable connectivity else false

abbrev pub duration : ℕ → Option ℕ → ℤ
duration now none = pos 0
duration now (some start) = sub_ℕ now start

unfoldable pub get_summary :
    ℕ → ℕ → HealthTracker → Option NetworkConnectivityResult → Result HealthSummary
unfolding network_issue count_broken
get_summary now timestamp t connectivity =
    let records = values t.health_records in
    let total = length records in
    let failing = count_broken records in
    if total == 0
    then err zero_division
    else ok (record {
      timestamp = timestamp;
      total_dnsbls = total;
      broken_dnsbls = failing;
      network_issue_detected = network_issue failing total connectivity;
      total_ip_checks = t.total_ip_checks;
      execution_duration_ms = duration now t.start_time;
      dnsbl_health = records;
      network_connectivity = connectivity;
    })
