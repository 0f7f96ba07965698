-- ===== src/Services/HealthReporter.antt =====
-- src/services/health_reporter.py and the PrunedConfiguration of src/models/dnsbl_health.py. The
-- text of the time is an argument. PyYAML is the parameter `safe_dump`: the text of the dict with
-- the one key `dnsbl_zones`.
use mathlib.Core.List.{Perm, perm_middle}
use mathlib.Core.List.Perm
use native.Mathlib.Nat.{ℕ_set}
use postal_dnsbl_monitor.Common.{
  ℕ, Str, codes, ◌≡◌, refl, List, [], ◌∷◌, ◌++◌, map, length, if◌then◌else◌, arith,
}
use postal_dnsbl_monitor.Common.Split.{join}
use postal_dnsbl_monitor.Common.Sorting.{sorted}
use postal_dnsbl_monitor.Common.Sorting.Keys.{DistinctBy, sort_by-eq_of_perm}
use postal_dnsbl_monitor.Common.Json.{dumps}
use postal_dnsbl_monitor.Models.DnsblHealth.Report.{to_json, zone_of}
use postal_dnsbl_monitor.Models.DnsblHealth.{
  DnsblHealthRecord, HealthSummary, healthy, broken, status,
}
use postal_dnsbl_monitor.Services.HealthTracker.{is_broken, count_broken}

pub record PrunedConfiguration : Type 0 where
  pub healthy_zones : List Str
  pub removed_zones : List Str
  pub generated_at : Str

-- `[r.zone for r in health_records if r.status == "healthy"]`
unfoldable pub zones_healthy : List DnsblHealthRecord → List Str
zones_healthy [] = []
zones_healthy (r ∷ rs) =
    let rest = zones_healthy rs in if is_broken (status r) then rest else r.zone ∷ rest

-- `[r.zone for r in health_records if r.status == "broken"]`
unfoldable pub zones_broken : List DnsblHealthRecord → List Str
zones_broken [] = []
zones_broken (r ∷ rs) =
    let rest = zones_broken rs in if is_broken (status r) then r.zone ∷ rest else rest

unfoldable pub pruned_config : Str → List DnsblHealthRecord → PrunedConfiguration
pruned_config generated_at health_records = record {
  healthy_zones = zones_healthy health_records;
  removed_zones = zones_broken health_records;
  generated_at = generated_at;
}

-- `removed_str`
unfoldable pub removed_str : List Str → Str
removed_str [] = codes "None"
removed_str (z ∷ zones) = join (codes ", ") (sorted (z ∷ zones))

module _ (safe_dump : List Str → Str) where
  unfoldable pub to_yaml : PrunedConfiguration → Str
  to_yaml p =
      join (10 ∷ []) (
        codes "# Suggested DNSBL Configuration (Broken endpoints removed)"
        ∷ (codes "# Generated: " ++ p.generated_at)
        ∷ (codes "# Removed: " ++ removed_str p.removed_zones)
        ∷ [])
      ++ (10 ∷ safe_dump (sorted p.healthy_zones))

  unfoldable pub generate_pruned_yaml : Str → List DnsblHealthRecord → Str
  generate_pruned_yaml generated_at health_records =
      to_yaml (pruned_config generated_at health_records)

records_set : IsSet (List DnsblHealthRecord)
records_set = hlevel ℕ_set

module _ (float_repr : ℕ → ℕ → Str) (isoformat : ℕ → Str) where
  unfoldable pub generate_json_report : HealthSummary → Str
  generate_json_report summary = dumps float_repr (to_json isoformat summary)

  -- The report does not depend on the order in which the summary names the zones, if it names none
  -- twice.
  pub generate_json_report-perm :
      (s : HealthSummary) (rs : List DnsblHealthRecord)
      → Perm s.dnsbl_health rs
      → DistinctBy zone_of s.dnsbl_health
      → generate_json_report (record s { dnsbl_health = rs }) ≡ generate_json_report s
  unfolding generate_json_report to_json
  generate_json_report-perm s rs p h = rw (sort_by-eq_of_perm zone_of records_set p h) refl

zones-Perm :
    (rs : List DnsblHealthRecord)
    → Perm (zones_healthy rs ++ zones_broken rs) (map (λ r. r.zone) rs)
unfolding zones_healthy zones_broken
zones-Perm [] = Perm.refl []
zones-Perm (r ∷ rs) =
    elim (status r)
      as (λ x.
        Perm
          ((if is_broken x then zones_healthy rs else r.zone ∷ zones_healthy rs)
            ++ (if is_broken x then r.zone ∷ zones_broken rs else zones_broken rs))
          (r.zone ∷ map (λ q. q.zone) rs)) [
            | healthy ↦ Perm.cons r.zone (zones-Perm rs)
            | broken ↦
                Perm.trans (perm_middle (zones_healthy rs) (zones_broken rs))
                  (Perm.cons r.zone (zones-Perm rs))
          ]

length-zones_broken : (rs : List DnsblHealthRecord) → length (zones_broken rs) ≡ count_broken rs
unfolding zones_broken count_broken
length-zones_broken [] = refl
length-zones_broken (r ∷ rs) = ground (arith, length-zones_broken rs)

-- The healthy and the removed zones of a pruned configuration are together the zones of the records,
-- each as often as it stands there, and as many are removed as the summary counts as broken.
pub pruned_config-Perm :
    (generated_at : Str) (rs : List DnsblHealthRecord)
    → Perm
        ((pruned_config generated_at rs).healthy_zones
          ++ (pruned_config generated_at rs).removed_zones)
        (map (λ r. r.zone) rs)
      × (length (pruned_config generated_at rs).removed_zones ≡ count_broken rs)
unfolding pruned_config
pruned_config-Perm generated_at rs = (zones-Perm rs, length-zones_broken rs)
