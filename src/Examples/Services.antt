-- ===== src/Examples/Services.antt =====
-- The database, the tracker, the checker and the search at concrete inputs.
use mathlib.Core.List.{Perm}
use postal_dnsbl_monitor.Services.Logger.{setup_logging}
use postal_dnsbl_monitor.Services.Logger.Setup.{setup_logging-handlers}
use postal_dnsbl_monitor.Services.HealthReporter.{pruned_config, pruned_config-Perm}
use postal_dnsbl_monitor.Common.{
  ◌++◌, ℕ, ◌*◌, ◌≤◌, Str, codes, ◌≡◌, ◌↔◌, refl, true, false, Option, none, some, List, [], ◌∷◌,
  map, length, All, SameTexts, str_eq, str_eq_iff, str_eq_refl, contains, arith,
}
use postal_dnsbl_monitor.Common.{if◌then◌else◌}
use postal_dnsbl_monitor.Common.Int.{pos}
use postal_dnsbl_monitor.Common.Dict.{lookup, values}
use postal_dnsbl_monitor.Common.Exec.{Exec, ok, mysql_error, ◌>>◌}
use postal_dnsbl_monitor.Models.DnsblHealth.{
  DnsblHealthRecord, NetworkConnectivityResult, HealthSummary,
}
use postal_dnsbl_monitor.Models.IpRecord.{zones_of}
use postal_dnsbl_monitor.Services.Database.{
  Row, Faults, Db, no_faults, next_faults, to_record, joined, clean_event, get_db_connection,
  update_ip_listed, update_ip_clean, update_ip_zone_change,
}
use postal_dnsbl_monitor.Services.Database.Transactions.{Atomic, get_db_connection-Atomic}
use postal_dnsbl_monitor.Services.Database.Updates.{
  up, find_row, list_then_clean, updates_idempotent, null_row_unchanged,
}
use postal_dnsbl_monitor.Services.Database.Zones.{zones_of-joined}
use postal_dnsbl_monitor.Services.DnsChecker.{check_ip_concurrent}
use postal_dnsbl_monitor.Services.DnsChecker.Results.{tracked_after, check_ip_concurrent-verdicts}
use postal_dnsbl_monitor.Services.DnsChecker.Verdicts.{result_of}
use postal_dnsbl_monitor.Services.HealthTracker.{init, count_broken, get_summary}
use postal_dnsbl_monitor.Services.HealthTracker.Counts.{Check, record_all, Judged, run-Judged}
use postal_dnsbl_monitor.Services.HealthTracker.Summary.{Unreachable, get_summary-run}
use postal_dnsbl_monitor.Services.JiraClient.{Issue, chosen}
use postal_dnsbl_monitor.Services.JiraClient.Latest.{IsLatest, chosen-IsLatest}
use postal_dnsbl_monitor.Examples.{
  zen, cop, address, zones, resolve, class_name, message, completions, clean_row, tracker,
}
use postal_dnsbl_monitor.Examples.Main.{known}

abbrev checks : List Check
checks =
    record { zone = zen; failure = some (codes "timeout") }
    ∷ record { zone = cop; failure = none }
    ∷ []

run-Judged_example :
    ((record_all checks tracker).0 ≡ ok tt)
    × ((r : DnsblHealthRecord) × (lookup zen (record_all checks tracker).1.health_records ≡ some r)
        × Judged zen checks r)
unfolding init postal_dnsbl_monitor.Common.Dict.insert str_eq contains
run-Judged_example = run-Judged zones {t = tracker} checks zen refl (refl, (refl, tt)) refl

abbrev offline : Option NetworkConnectivityResult
offline = some (record {
  check_enabled = true;
  cloudflare_reachable = some false;
  google_reachable = some false;
})

get_summary-run_example :
    (s : HealthSummary) × (get_summary 9 4 (record_all checks tracker).1 offline ≡ ok s)
    × (s.total_dnsbls ≡ length (values tracker.health_records))
    × (s.broken_dnsbls ≡ count_broken (values (record_all checks tracker).1.health_records))
    × (s.broken_dnsbls ≤ s.total_dnsbls)
    × ((s.network_issue_detected ≡ true)
        ↔ ((s.total_dnsbls ≤ 2 * s.broken_dnsbls) × Unreachable offline))
unfolding init postal_dnsbl_monitor.Common.Dict.insert str_eq
get_summary-run_example = get_summary-run zones {t = tracker} checks 9 4 offline refl

check_ip_concurrent-verdicts_example :
    check_ip_concurrent class_name resolve message address 5 completions (some tracker) ≡ (
      ok (map (result_of class_name resolve message address 5) completions),
      tracked_after class_name resolve message address 5 completions (some tracker),
    )
check_ip_concurrent-verdicts_example =
    check_ip_concurrent-verdicts class_name resolve message address 5 completions (some tracker)
      known

updates_idempotent_example :
    ((update_ip_listed str_eq 1 address (pos 70) zones (pos 0)
          >> update_ip_listed str_eq 1 address (pos 70) zones (pos 0))
        (up (clean_row ∷ []))
      ≡ (
        ok false,
        (update_ip_listed str_eq 1 address (pos 70) zones (pos 0) (up (clean_row ∷ []))).1,
      ))
    × ((update_ip_clean str_eq 1 address none (pos 70)
            >> update_ip_clean str_eq 1 address none (pos 70))
          (up (clean_row ∷ []))
        ≡ (ok false, (update_ip_clean str_eq 1 address none (pos 70) (up (clean_row ∷ []))).1))
    × ((update_ip_zone_change str_eq 1 address zones
            >> update_ip_zone_change str_eq 1 address zones)
          (up (clean_row ∷ []))
        ≡ (ok false, (update_ip_zone_change str_eq 1 address zones (up (clean_row ∷ []))).1))
updates_idempotent_example =
    updates_idempotent str_eq str_eq_refl 1 address (pos 70) (pos 0) none zones (clean_row ∷ [])

abbrev null_row : Row
null_row = record clean_row { blocking_lists = none }

null_row_unchanged_example :
    (find_row 1
        (update_ip_listed str_eq 1 address (pos 70) zones (pos 0) (up (null_row ∷ []))).1.table
      ≡ some null_row)
    × (find_row 1 (update_ip_clean str_eq 1 address none (pos 70) (up (null_row ∷ []))).1.table
        ≡ some null_row)
    × (find_row 1 (update_ip_zone_change str_eq 1 address zones (up (null_row ∷ []))).1.table
        ≡ some null_row)
unfolding find_row
null_row_unchanged_example =
    null_row_unchanged str_eq 1 address (pos 70) (pos 0) none zones (null_row ∷ []) null_row refl
      refl

-- A row of priority 0.
abbrev top_row : Row
top_row = record clean_row { priority = some (pos 0) }

abbrev top_listed : List Row
top_listed = (update_ip_listed str_eq 1 address (pos 100) zones (pos 5) (up (top_row ∷ []))).1.table

list_then_clean_example :
    (row' : Row) × (find_row 1 top_listed ≡ some row')
    × (row'.priority ≡ some (pos 5))
    × ((to_record row' address).blocking_lists ≡ joined zones)
    × (find_row 1
          (update_ip_clean str_eq 1 address
            (to_record row' address).old_priority
            (pos 50)
            (up top_listed)).1.table
        ≡ some (record top_row {
          priority = some (pos 100);
          old_priority = none;
          blocking_lists = some [];
          last_event = some clean_event;
        }))
unfolding find_row to_record str_eq joined postal_dnsbl_monitor.Common.Split.join
    postal_dnsbl_monitor.Common.Sorting.sorted postal_dnsbl_monitor.Common.Sorting.sort_by
    postal_dnsbl_monitor.Common.Sorting.insert_by postal_dnsbl_monitor.Common.Order.leb_str
list_then_clean_example =
    list_then_clean str_eq (top_row ∷ []) top_row address (pos 5) (pos 50) zones refl refl refl refl
      refl

-- A commit that fails.
abbrev faulty : Db
faulty = record {
  table = clean_row ∷ [];
  dsn_error = none;
  faults = record no_faults { commit = some (mysql_error []) } ∷ [];
}

abbrev emptied : Faults → Exec (List Row) ℕ
emptied f table = (ok 1, [])

get_db_connection-Atomic_example :
    Atomic
      (next_faults faulty.faults)
      (emptied (next_faults faulty.faults) faulty.table)
      faulty.table
      ((get_db_connection emptied faulty).0, (get_db_connection emptied faulty).1.table)
get_db_connection-Atomic_example = get_db_connection-Atomic emptied faulty

zones_of-joined_example : SameTexts (zones_of (joined zones)) zones
unfolding postal_dnsbl_monitor.Common.Split.has
zones_of-joined_example = zones_of-joined zones (((λ e. cc), refl), (((λ e. cc), refl), tt))

abbrev issue : Str → Str → Issue
issue key created = record { key = key; summary = []; status = codes "Open"; created = created }

abbrev issues : List Issue
issues =
    issue (codes "OPS-1") (codes "2024-01-01") ∷ issue (codes "OPS-2") (codes "2024-02-01") ∷ []

chosen-IsLatest_example : IsLatest issues (chosen issues)
chosen-IsLatest_example = chosen-IsLatest issues

pruned_config-Perm_example :
    Perm
      ((pruned_config (codes "2024") (values tracker.health_records)).healthy_zones
        ++ (pruned_config (codes "2024") (values tracker.health_records)).removed_zones)
      (map (λ r. r.zone) (values tracker.health_records))
    × (length (pruned_config (codes "2024") (values tracker.health_records)).removed_zones
        ≡ count_broken (values tracker.health_records))
pruned_config-Perm_example = pruned_config-Perm (codes "2024") (values tracker.health_records)

setup_logging-handlers_example :
    ((setup_logging 7 (record { level = 30; handlers = 3 ∷ 5 ∷ [] })).handlers ≡ 7 ∷ [])
    × ((setup_logging 7 (record { level = 30; handlers = 3 ∷ 5 ∷ [] })).level ≡ 20)
setup_logging-handlers_example =
    setup_logging-handlers 7 (record { level = 30; handlers = 3 ∷ 5 ∷ [] })
