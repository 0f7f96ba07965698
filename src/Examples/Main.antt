-- ===== src/Examples/Main.antt =====
-- `process_ip` on a clean address that zen.org lists, with a Jira server that fails.
use postal_dnsbl_monitor.Common.{
  ℕ, Str, All, ◌≡◌, refl, Bool, true, false, Option, none, some, List, [], ◌∷◌, str_eq, str_eq_iff,
  SameTexts, arith,
}
use postal_dnsbl_monitor.Common.Split.{has}
use postal_dnsbl_monitor.Common.Dict.{has_key, lookup}
use postal_dnsbl_monitor.Services.Database.{Row, to_record, or_empty}
use postal_dnsbl_monitor.Services.Database.Updates.{find_row}
use postal_dnsbl_monitor.Services.DnsChecker.Results.{KnownZones}
use postal_dnsbl_monitor.Services.Database.Zones.{Proper}
use postal_dnsbl_monitor.Models.IpRecord.{is_currently_listed, zones_of}
use postal_dnsbl_monitor.Main.{process_ip, recovery, recover_if}
use postal_dnsbl_monitor.Main.Frames.{Reaches}
use postal_dnsbl_monitor.Main.Refinement.{
  run, transition, dry_stats, Untouched, process_ip-Reaches, process_ip-dry_run,
}
use postal_dnsbl_monitor.Main.Convergence.{Reflects}
use postal_dnsbl_monitor.Main.Runs.{listing, process_ip-Reflects, process_ip-settled}
use postal_dnsbl_monitor.Main.{no_stats}
use postal_dnsbl_monitor.Main.Job.{Task, CountsAll, process_all, process_all-counts}
use postal_dnsbl_monitor.Common.Ensures.{Ensures}
use postal_dnsbl_monitor.Main.Counting.{CountsOnce, process_ip-CountsOnce}
use postal_dnsbl_monitor.Examples.{
  address, resolve, class_name, message, completions, clean_row, listed_row, config, dry_config,
  failing_jira, client, world, listed_record, tracker,
}

pub known : KnownZones class_name resolve message completions (some tracker)
unfolding has_key lookup str_eq
known = (refl, (refl, tt))

pub proper : All (λ c. Proper c.zone) completions
unfolding has
proper = (((λ e. cc), refl), (((λ e. cc), refl), tt))

process_ip-Reflects_example :
    (row' : Row) × (find_row 1
        (run failing_jira str_eq config
          (some client)
          class_name
          resolve
          message
          5
          (to_record clean_row address)
          completions
          3
          (world clean_row)).1.db.table
      ≡ some row')
    × Reflects config
        (listing failing_jira str_eq config
          (some client)
          class_name
          resolve
          message
          5
          address
          completions)
        clean_row
        row'
unfolding recovery recover_if is_currently_listed to_record find_row
process_ip-Reflects_example =
    process_ip-Reflects failing_jira str_eq config (some client) class_name resolve message 5
      address (clean_row ∷ []) clean_row [] completions 3 (world clean_row) {recovered = false} refl
      refl refl refl proper (λ e. (str_eq_iff _ _).0 e) known refl

names_zen : SameTexts (zones_of (or_empty listed_row.blocking_lists)) (
    listing failing_jira str_eq config
      (some client)
      class_name
      resolve
      message
      5
      address
      completions)
unfolding postal_dnsbl_monitor.Utils.IpUtils.build_dnsbl_query zones_of
    postal_dnsbl_monitor.Utils.IpUtils.reverse_ip postal_dnsbl_monitor.Common.Split.split
    postal_dnsbl_monitor.Utils.IpUtils.is_valid_ipv4 postal_dnsbl_monitor.Common.Split.onto_first
    str_eq postal_dnsbl_monitor.Common.Split.join
    postal_dnsbl_monitor.Services.DnsChecker.validate_dnsbl_response
names_zen s = refl

-- The row of `listed_record` names zen.org, which alone lists the address.
process_ip-settled_example :
    (run failing_jira str_eq config
      (some client)
      class_name
      resolve
      message
      5
      (to_record listed_row address)
      completions
      3
      (world listed_row)).1.db
    ≡ (world listed_row).db
process_ip-settled_example =
    process_ip-settled failing_jira str_eq config (some client) class_name resolve message 5 address
      listed_row completions 3 (world listed_row) names_zen known

-- The recovery of the listed record fails on the server.
process_ip-Reaches_example :
    Reaches failing_jira str_eq config
      (some client)
      class_name
      resolve
      message
      5
      listed_record
      completions
      (world listed_row)
      (recovery failing_jira config (some client) listed_record (world listed_row)).0
      (run failing_jira str_eq config
        (some client)
        class_name
        resolve
        message
        5
        listed_record
        completions
        3
        (world listed_row))
process_ip-Reaches_example =
    process_ip-Reaches failing_jira str_eq config (some client) class_name resolve message 5
      listed_record completions 3 (world listed_row) known

process_ip-dry_run_example :
    Untouched failing_jira str_eq dry_config
      (some client)
      class_name
      resolve
      message
      5
      (dry_stats failing_jira str_eq dry_config (some client) class_name resolve message 5 (
        transition failing_jira str_eq dry_config
          (some client)
          class_name
          resolve
          message
          5
          listed_record
          completions))
      (world listed_row)
      (run failing_jira str_eq dry_config
        (some client)
        class_name
        resolve
        message
        5
        listed_record
        completions
        3
        (world listed_row))
process_ip-dry_run_example =
    process_ip-dry_run failing_jira str_eq dry_config (some client) class_name resolve message 5
      listed_record completions 3 (world listed_row) refl known

process_ip-CountsOnce_example : Ensures CountsOnce (
    process_ip failing_jira str_eq config none class_name resolve message 5 listed_record
      completions 3
      (world listed_row))
process_ip-CountsOnce_example =
    process_ip-CountsOnce failing_jira str_eq config none class_name resolve message 5 listed_record
      completions 3 (world listed_row) refl

abbrev tasks : List Task
tasks =
    record { ip_record = listed_record; completions = completions; now = 3 }
    ∷ record { ip_record = to_record clean_row address; completions = []; now = 4 }
    ∷ []

process_all-counts_example : Ensures (CountsAll 2) (
    process_all failing_jira str_eq config none class_name resolve message 5 no_stats tasks
      (world listed_row))
process_all-counts_example =
    process_all-counts failing_jira str_eq config none class_name resolve message 5 tasks
      (world listed_row) refl
