-- ===== src/Models/DnsblHealth/Report.antt =====
-- The two methods `to_json` of src/models/dnsbl_health.py. The text of a time, `isoformat()`, is a
-- parameter.
use postal_dnsbl_monitor.Common.{ℕ, Str, codes, Bool, Option, none, some, [], ◌∷◌, map}
use postal_dnsbl_monitor.Common.Int.{pos}
use postal_dnsbl_monitor.Common.Dict.{Dict}
use postal_dnsbl_monitor.Common.Json.{
  Json, null, boolean, int, quotient, text, array, object, array_of, object_of,
}
use postal_dnsbl_monitor.Common.Sorting.{sort_by}
use postal_dnsbl_monitor.Models.DnsblHealth.{
  DnsblHealthRecord, HealthStatus, HealthSummary, NetworkConnectivityResult, Ratio, healthy, broken,
  status, failure_rate,
}

abbrev optional : Option Bool → Json
optional none = null
optional (some b) = boolean b

-- `NetworkConnectivityResult.to_json`
unfoldable pub connectivity_to_json : NetworkConnectivityResult → Json
connectivity_to_json c = object (
    object_of (
      (codes "check_enabled", boolean c.check_enabled)
      ∷ (codes "cloudflare_reachable", optional c.cloudflare_reachable)
      ∷ (codes "google_reachable", optional c.google_reachable)
      ∷ []))

abbrev pub connectivity_json : Option NetworkConnectivityResult → Json
connectivity_json none = null
connectivity_json (some c) = connectivity_to_json c

abbrev pub status_text : HealthStatus → Str
status_text healthy = codes "healthy"
status_text broken = codes "broken"

abbrev pub ratio_json : Ratio → Json
ratio_json q = quotient q.numerator q.denominator

abbrev counted : Str × ℕ → Str × Json
counted (failure_type, n) = (failure_type, int (pos n))

abbrev failure_type_of : Str × ℕ → Str
failure_type_of p = p.0

-- `dict(sorted(r.failure_types.items()))`
unfoldable pub failure_types_json : Dict ℕ → Json
failure_types_json d = object (object_of (map counted (sort_by failure_type_of d)))

-- the entry of one zone
unfoldable pub zone_json : DnsblHealthRecord → Json
unfolding failure_types_json
zone_json r = object (
    object_of (
      (codes "zone", text r.zone)
      ∷ (codes "status", text (status_text (status r)))
      ∷ (codes "checks_performed", int (pos r.checks_performed))
      ∷ (codes "successful_checks", int (pos r.successful_checks))
      ∷ (codes "failed_checks", int (pos r.failed_checks))
      ∷ (codes "failure_rate", ratio_json (failure_rate r))
      ∷ (codes "failure_types", failure_types_json r.failure_types)
      ∷ []))

abbrev pub zone_of : DnsblHealthRecord → Str
zone_of r = r.zone

-- `HealthSummary.to_json`
unfoldable pub to_json : (ℕ → Str) → HealthSummary → Json
unfolding zone_json connectivity_to_json
to_json isoformat s = object (
    object_of (
      (
        codes "execution_summary",
        object (
            object_of (
              (codes "timestamp", text (isoformat s.timestamp))
              ∷ (codes "total_dnsbls", int (pos s.total_dnsbls))
              ∷ (codes "broken_dnsbls", int (pos s.broken_dnsbls))
              ∷ (codes "network_issue_detected", boolean s.network_issue_detected)
              ∷ (codes "total_ip_checks", int (pos s.total_ip_checks))
              ∷ (codes "execution_duration_ms", int s.execution_duration_ms)
              ∷ [])),
      )
      ∷ (codes "dnsbl_health", array (array_of (map zone_json (sort_by zone_of s.dnsbl_health))))
      ∷ (codes "network_connectivity", connectivity_json s.network_connectivity)
      ∷ []))
