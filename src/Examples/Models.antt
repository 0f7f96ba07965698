-- ===== src/Examples/Models.antt =====
-- Decisions on one listed record, and the counters of a zone.
use mathlib.Core.List.Perm
use postal_dnsbl_monitor.Common.{
  ℕ, ◌<◌, Str, ◌≡◌, refl, ◌↔◌, true, false, none, some, List, [], ◌∷◌, ◌++◌, map, All, SameTexts,
  codes, arith,
}
use postal_dnsbl_monitor.Models.DnsResult.{DnsResult, listed, not_listed, unknown, is_listed}
use postal_dnsbl_monitor.Models.IpRecord.{get_listed_zones, is_currently_listed}
use postal_dnsbl_monitor.Models.StateTransition
use postal_dnsbl_monitor.Models.StateTransition.{
  StateTransition, determine_state_transition, detect_zone_delta, clean,
}
use postal_dnsbl_monitor.Models.StateTransition.Decision.{
  zones_where, determine-none_iff, determine-perm,
}
use postal_dnsbl_monitor.Models.StateTransition.Delta.{
  IsDelta, determine-IsDelta, detect_zone_delta-IsDelta, forget_unknown, determine-forget_unknown,
  determine-unknown_only,
}
use postal_dnsbl_monitor.Models.DnsblHealth.{new_record, record_check, status, broken}
use postal_dnsbl_monitor.Models.DnsblHealth.Record.{
  IsConsistent, record_check-IsConsistent, record_check-not-IsConsistent, status-broken_iff,
}
use postal_dnsbl_monitor.Examples.{zen, cop, result, listed_record}

abbrev results : List DnsResult
results = result cop listed ∷ result zen not_listed ∷ []

abbrev failures : List DnsResult
failures = result cop unknown ∷ result zen unknown ∷ []

determine-none_iff_example :
    (determine_state_transition listed_record results ≡ none)
    ↔ SameTexts (get_listed_zones listed_record) (zones_where is_listed results)
determine-none_iff_example = determine-none_iff listed_record results

determine-perm_example :
    determine_state_transition listed_record results
    ≡ determine_state_transition listed_record (result zen not_listed ∷ result cop listed ∷ [])
determine-perm_example =
    determine-perm listed_record (Perm.swap (result zen not_listed) (result cop listed) [])

detect_zone_delta-IsDelta_example :
    IsDelta (zen ∷ []) (cop ∷ []) (detect_zone_delta (zen ∷ []) (cop ∷ []))
detect_zone_delta-IsDelta_example = detect_zone_delta-IsDelta (zen ∷ []) (cop ∷ [])

abbrev moved : StateTransition
moved = record {
  ip = listed_record.ip;
  previous_state = postal_dnsbl_monitor.Models.StateTransition.listed;
  new_state = postal_dnsbl_monitor.Models.StateTransition.listed;
  listed_zones = cop ∷ [];
  zone_delta = record { added = cop ∷ []; removed = zen ∷ [] };
  requires_update = true;
}

determine-IsDelta_example :
    IsDelta (get_listed_zones listed_record) moved.listed_zones moved.zone_delta
unfolding determine_state_transition is_currently_listed StateTransition.aggregate_dns_results
    postal_dnsbl_monitor.Common.Sorting.sorted postal_dnsbl_monitor.Common.Sorting.sort_by
    postal_dnsbl_monitor.Common.Sorting.insert_by postal_dnsbl_monitor.Common.Sorting.set_eq
    postal_dnsbl_monitor.Common.Sorting.to_set get_listed_zones
    postal_dnsbl_monitor.Common.Split.split postal_dnsbl_monitor.Common.Split.onto_first
    postal_dnsbl_monitor.Common.contains postal_dnsbl_monitor.Common.str_eq
    postal_dnsbl_monitor.Common.Sorting.difference
determine-IsDelta_example = determine-IsDelta listed_record results {t = moved} refl

determine-forget_unknown_example :
    determine_state_transition listed_record (map forget_unknown failures)
    ≡ determine_state_transition listed_record failures
determine-forget_unknown_example = determine-forget_unknown listed_record failures

determine-unknown_only_example :
    (t : StateTransition) × (determine_state_transition listed_record failures ≡ some t)
    × (t.previous_state ≡ postal_dnsbl_monitor.Models.StateTransition.listed)
    × (t.new_state ≡ clean)
    × (t.listed_zones ≡ [])
unfolding is_currently_listed
determine-unknown_only_example =
    determine-unknown_only listed_record failures refl (refl, (refl, tt))

fresh : IsConsistent (new_record zen)
fresh = record { checks = refl; failures = refl }

record_check-IsConsistent_example :
    IsConsistent (record_check false (some (codes "timeout")) (new_record zen)).1
unfolding record_check
record_check-IsConsistent_example =
    record_check-IsConsistent false (some (codes "timeout")) (new_record zen) fresh refl

record_check-not-IsConsistent_example :
    ¬ (IsConsistent (record_check false none (new_record zen)).1)
record_check-not-IsConsistent_example = record_check-not-IsConsistent (new_record zen) fresh

status-broken_iff_example :
    (status (new_record zen) ≡ broken)
    ↔ ((0 < (new_record zen).checks_performed) × ((new_record zen).successful_checks ≡ 0))
status-broken_iff_example = status-broken_iff (new_record zen) fresh
