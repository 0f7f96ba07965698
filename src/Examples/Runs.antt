-- ===== src/Examples/Runs.antt =====
-- Runs over the clean address, one after the other, and the time that they take.
use mathlib.Core.List.Perm
use postal_dnsbl_monitor.Common.{
  ℕ, ◌+◌, Str, codes, ◌≡◌, ◌≢◌, refl, Bool, true, false, Option, none, some, List, [], ◌∷◌, str_eq,
  str_eq_iff, All, arith,
}
use postal_dnsbl_monitor.Common.Int.{pos}
use postal_dnsbl_monitor.Common.Exec.{Result, ok, err, jira_error, nxdomain}
use postal_dnsbl_monitor.Models.IpRecord.{is_currently_listed}
use postal_dnsbl_monitor.Models.DnsblHealth.{HealthSummary, new_record}
use postal_dnsbl_monitor.Models.DnsblHealth.Report.{zone_of}
use postal_dnsbl_monitor.Common.Sorting.Keys.{DistinctBy}
use postal_dnsbl_monitor.Services.Database.{Row, to_record}
use postal_dnsbl_monitor.Services.HealthReporter.{generate_json_report, generate_json_report-perm}
use postal_dnsbl_monitor.Services.JiraClient.{JiraServer, create_or_update_run_report}
use postal_dnsbl_monitor.Services.JiraClient.Cost.{IsClock, create_or_update_run_report-Costs}
use postal_dnsbl_monitor.Services.DnsChecker.Results.{KnownZones}
use postal_dnsbl_monitor.Utils.Retry.Cost.{Costs}
use postal_dnsbl_monitor.Main.{process_ip, no_stats}
use postal_dnsbl_monitor.Main.Refinement.{run, Untouched}
use postal_dnsbl_monitor.Main.Lifecycle.{Kept}
use postal_dnsbl_monitor.Main.History.{Setting, Visit, own, here, next, table_after, History-Kept}
use postal_dnsbl_monitor.Main.Cost.{clock_of, process_ip-Sleeps}
use postal_dnsbl_monitor.Main.Idle.{process_ip-idle}
use postal_dnsbl_monitor.Examples.{
  zen, cop, address, class_name, message, completions, clean_row, config, failing_jira, client,
  world, listed_record, tracker, resolve,
}
use postal_dnsbl_monitor.Examples.Main.{known, proper}

abbrev setting : Setting failing_jira
setting = record {
  jira_client = some client;
  class_name = class_name;
  resolve = resolve;
  message = message;
  dns_timeout = 5;
  completions = completions;
  now = 3;
  world = world clean_row;
}

abbrev later_table : List Row
later_table = table_after failing_jira str_eq config (to_record clean_row address) setting

visited : Visit failing_jira str_eq config 1 (clean_row ∷ []) later_table
visited =
    own clean_row address setting (known, proper) refl
      (unfold postal_dnsbl_monitor.Services.Database.Updates.find_row in refl) refl

-- Its owner gave the address the priority 70.
History-Kept_example : Kept config (pos 70) refl failing_jira str_eq 1 later_table
unfolding postal_dnsbl_monitor.Services.Database.Updates.find_row
History-Kept_example =
    History-Kept failing_jira str_eq config (pos 70) refl 1 (next here visited)
      (clean_row, refl, record { text = ([], refl); priorities = (refl, refl) })

-- Jira fails at every call, and its state is the time.
abbrev pub slow_jira : JiraServer
slow_jira = record {
  State = ℕ;
  connect = λ server user token s. (ok tt, s);
  search_issues = λ query limit s. (err (jira_error (some 503)), s);
  create_issue = λ fields s. (err (jira_error (some 503)), s);
  add_comment = λ key comment s. (err (jira_error (some 503)), s);
  transitions = λ key s. (err (jira_error (some 503)), s);
  transition_issue = λ key id s. (err (jira_error (some 503)), s);
  sleep = λ seconds s. s + seconds;
}

abbrev time : ℕ → ℕ
time s = s

slow_jira-IsClock : IsClock slow_jira time
slow_jira-IsClock = record {
  slept = λ d s. refl;
  search = λ query limit s. refl;
  create = λ fields s. refl;
  comment = λ key text s. refl;
  list = λ key s. refl;
  move = λ key id s. refl;
}

create_or_update_run_report-Costs_example :
    Costs time 126
      (create_or_update_run_report slow_jira client (codes "{}") none (codes "2026-01-01T00:00:00"))
create_or_update_run_report-Costs_example =
    create_or_update_run_report-Costs slow_jira time slow_jira-IsClock client (codes "{}") none
      (codes "2026-01-01T00:00:00")

-- The four attempts of the report make four attempts of the search each.
slept : (create_or_update_run_report slow_jira client (codes "{}") none (codes "2026") 0).1 ≡ 70
unfolding create_or_update_run_report postal_dnsbl_monitor.Utils.Retry.with_retry
    postal_dnsbl_monitor.Services.JiraClient.find_run_report_issue
    postal_dnsbl_monitor.Utils.Retry.is_transient postal_dnsbl_monitor.Utils.Retry.get_elem?
slept = refl

process_ip-Sleeps_example : Costs (clock_of slow_jira time slow_jira-IsClock) 70 (
    process_ip slow_jira str_eq config
      (some client)
      class_name
      resolve
      message
      5
      listed_record
      completions
      3)
process_ip-Sleeps_example =
    process_ip-Sleeps slow_jira time slow_jira-IsClock str_eq config (some client) class_name
      resolve message 5 listed_record completions 3

-- No zone lists the address.
abbrev resolve_nothing : Str → ℕ → Result (List Str)
resolve_nothing query timeout = err nxdomain

known_zones : KnownZones class_name resolve_nothing message completions (some tracker)
unfolding postal_dnsbl_monitor.Common.Dict.has_key postal_dnsbl_monitor.Common.Dict.lookup str_eq
known_zones = (refl, (refl, tt))

process_ip-idle_example :
    Untouched failing_jira str_eq config
      (some client)
      class_name
      resolve_nothing
      message
      5
      (record no_stats { unchanged = 1 })
      (world clean_row)
      (run failing_jira str_eq config
        (some client)
        class_name
        resolve_nothing
        message
        5
        (to_record clean_row address)
        completions
        3
        (world clean_row))
unfolding is_currently_listed to_record postal_dnsbl_monitor.Utils.IpUtils.build_dnsbl_query
    postal_dnsbl_monitor.Utils.IpUtils.reverse_ip postal_dnsbl_monitor.Utils.IpUtils.is_valid_ipv4
    postal_dnsbl_monitor.Common.Split.split postal_dnsbl_monitor.Common.Split.onto_first
process_ip-idle_example =
    process_ip-idle failing_jira str_eq config (some client) class_name resolve_nothing message 5
      (to_record clean_row address) completions 3 (world clean_row) refl refl known_zones

abbrev summary : HealthSummary
summary = record {
  timestamp = 0;
  total_dnsbls = 2;
  broken_dnsbls = 0;
  network_issue_detected = false;
  total_ip_checks = 0;
  execution_duration_ms = pos 0;
  dnsbl_health = new_record zen ∷ new_record cop ∷ [];
  network_connectivity = none;
}

impossible : false ≢ true
impossible e = cc

apart : zen ≢ cop
unfolding str_eq
apart e = impossible ((str_eq_iff zen cop).1 e)

distinct : DistinctBy zone_of summary.dnsbl_health
distinct = ((apart, tt), (tt, tt))

abbrev quotient : ℕ → ℕ → Str
quotient numerator denominator = codes "0.0"

abbrev iso : ℕ → Str
iso at = codes "2026-01-01T00:00:00"

generate_json_report-perm_example :
    generate_json_report quotient iso
      (record summary { dnsbl_health = new_record cop ∷ new_record zen ∷ [] })
    ≡ generate_json_report quotient iso summary
generate_json_report-perm_example =
    generate_json_report-perm quotient iso summary (new_record cop ∷ new_record zen ∷ [])
      (Perm.swap (new_record cop) (new_record zen) []) distinct
