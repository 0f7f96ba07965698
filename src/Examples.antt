-- ===== src/Examples.antt =====
-- The theorems at concrete inputs: one clean and one listed address, two zones, and a Jira server
-- that keeps the calls that it gets.
mod Models
mod Services
mod Utils
mod Main
mod Loading
mod Runs
mod Program
use postal_dnsbl_monitor.Common.{
  ℕ, zero, suc, Str, codes, Bool, true, false, Option, none, some, List, [], ◌∷◌, ◌++◌,
  if◌then◌else◌, str_eq,
}
use postal_dnsbl_monitor.Common.Int.{ℤ, pos}
use postal_dnsbl_monitor.Common.Exec.{Exn, Result, ok, err, nxdomain, jira_error, dns_timeout}
use postal_dnsbl_monitor.Config.{Config}
use postal_dnsbl_monitor.Models.DnsResult.{DnsResult, DnsStatus, listed, not_listed, unknown}
use postal_dnsbl_monitor.Models.IpRecord.{IpRecord}
use postal_dnsbl_monitor.Models.DnsblHealth.{new_record}
use postal_dnsbl_monitor.Services.Database.{Row}
use postal_dnsbl_monitor.Services.Database.Updates.{up}
use postal_dnsbl_monitor.Services.DnsChecker.{Completion}
use postal_dnsbl_monitor.Services.HealthTracker.{HealthTracker}
use postal_dnsbl_monitor.Services.JiraClient.{JiraServer, JiraClient}
use postal_dnsbl_monitor.Main.{World}

abbrev pub zen : Str
zen = codes "zen.org"

abbrev pub cop : Str
cop = codes "cop.net"

abbrev pub address : Str
address = codes "203.0.113.45"

abbrev pub zones : List Str
zones = zen ∷ cop ∷ []

-- zen.org lists the address, cop.net does not.
abbrev pub resolve : Str → ℕ → Result (List Str)
resolve query timeout =
    if str_eq query (codes "45.113.0.203.zen.org")
    then ok (codes "127.0.0.2" ∷ [])
    else err nxdomain

abbrev pub class_name : Exn → Str
class_name e = codes "Timeout"

abbrev pub message : Exn → Str
message e = []

abbrev pub completions : List Completion
completions = record { zone = cop; at = 7 } ∷ record { zone = zen; at = 9 } ∷ []

abbrev pub clean_row : Row
clean_row = record {
  id = 1;
  ipv4 = some address;
  priority = some (pos 70);
  old_priority = none;
  blocking_lists = some [];
  last_event = none;
}

abbrev pub listed_row : Row
listed_row = record clean_row {
  priority = some (pos 0);
  old_priority = some (pos 70);
  blocking_lists = some zen;
}

abbrev pub config : Config
config = record {
  db_host = codes "db";
  db_port = pos 3306;
  db_name = codes "postal";
  db_user = codes "u";
  db_password = codes "p";
  db_dsn = none;
  dnsbl_zones = zones;
  dns_timeout = pos 5;
  dns_concurrency = pos 10;
  listed_priority = pos 0;
  clean_fallback_priority = pos 50;
  jira_server = codes "https://j";
  jira_user = codes "u";
  jira_api_token = codes "t";
  jira_project = codes "OPS";
  jira_issue_type = codes "Incident";
  jira_dns_failure_issue_type = codes "Alert";
  jira_excluded_statuses = codes "Done" ∷ [];
  dry_run = false;
  enable_network_connectivity_check = true;
  verbose = false;
}

abbrev pub dry_config : Config
dry_config = record config { dry_run = true }

-- The server finds no issue, and answers the creation of one with the error 503.
abbrev pub failing_jira : JiraServer
failing_jira = record {
  State = ℕ;
  connect = λ server user token s. (ok tt, suc s);
  search_issues = λ query limit s. (ok [], suc s);
  create_issue = λ fields s. (err (jira_error (some 503)), suc s);
  add_comment = λ key comment s. (ok tt, suc s);
  transitions = λ key s. (ok [], suc s);
  transition_issue = λ key id s. (ok tt, suc s);
  sleep = λ seconds s. s;
}

abbrev pub client : JiraClient
client = record {
  project = codes "OPS";
  issue_type = codes "Incident";
  dns_failure_issue_type = codes "Alert";
  excluded_statuses = codes "Done" ∷ [];
}

abbrev pub tracker : HealthTracker
tracker = record {
  health_records = (zen, new_record zen) ∷ (cop, new_record cop) ∷ [];
  start_time = none;
  total_ip_checks = 0;
}

abbrev pub world : Row → World ℕ
world row = record { db = up (row ∷ []); jira = 0; tracker = some tracker; log = [] }

abbrev pub result : Str → DnsStatus → DnsResult
result zone status = record {
  ip = address;
  zone = zone;
  status = status;
  response_data = [];
  timestamp = 0;
}

abbrev pub listed_record : IpRecord
listed_record = record {
  id = 1;
  ip = address;
  priority = pos 0;
  old_priority = some (pos 70);
  blocking_lists = zen;
  last_event = none;
}
