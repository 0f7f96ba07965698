-- ===== src/Main/Program.antt =====
-- `main` of src/main.py. What is outside of the program is one record. The log holds the entries of
-- src/services/logger.py; the other log lines are left out.
pub mod Dry
pub mod Ending
pub mod Summary
use postal_dnsbl_monitor.Common.{
  ℕ, ◌+◌, Str, Bool, true, false, not, ◌&&◌, Option, none, some, List, [], ◌∷◌, map, length,
  if◌then◌else◌, ltb,
}
use postal_dnsbl_monitor.Common.Int.{ℤ, pos_part}
use postal_dnsbl_monitor.Common.Exec.{
  Exec, Exn, Result, ok, err, pure, lift, modify, gets, try_except, ◌>>=◌, ◌>>◌,
}
use postal_dnsbl_monitor.Config.{Config, Env, from_env, get_db_connection_string}
use postal_dnsbl_monitor.Models.DnsblHealth.{NetworkConnectivityResult, HealthSummary}
use postal_dnsbl_monitor.Models.IpRecord.{IpRecord}
use postal_dnsbl_monitor.Services.Database.{get_all_ips}
use postal_dnsbl_monitor.Services.DnsChecker.{Tracked, Completion}
use postal_dnsbl_monitor.Services.HealthTracker.{HealthTracker, init, get_summary}
use postal_dnsbl_monitor.Services.HealthReporter.{generate_json_report, generate_pruned_yaml}
use postal_dnsbl_monitor.Services.JiraClient
use postal_dnsbl_monitor.Services.JiraClient.{
  JiraServer, JiraClient, new_client, create_or_update_run_report,
}
use postal_dnsbl_monitor.Services.Logger.{JobSummary, log_job_summary}
use postal_dnsbl_monitor.Utils.NetworkCheck.{check_connectivity}
use postal_dnsbl_monitor.Main.{World, Act, Stats, no_stats, on_db, on_jira, on_log}
use postal_dnsbl_monitor.Main.Job.{Task, process_all}

-- What a run finds outside: the environment; what `urlparse` and `parsed.port` raise for a DSN; DNS, at
-- the resolver of the host and, for google.com, at a name server, with what `Resolver()` raises there; the order and the times in which the checks of a record for the given zones
-- complete; the time before a record, that of the summary and the one on its clock; and how
-- exceptions, times, quotients and YAML are written.
pub record Outside : Type 0 where
  pub env : Env
  pub class_name : Exn → Str
  pub message : Exn → Str
  pub resolve : Str → ℕ → Result (List Str)
  pub dsn_error : Str → Option Exn
  pub new_resolver : Str → Option Exn
  pub resolve_at : Str → Result (List Str)
  pub completions : List Str → IpRecord → List Completion
  pub now : IpRecord → ℕ
  pub end : ℕ
  pub timestamp : ℕ
  pub isoformat : ℕ → Str
  pub float_repr : ℕ → ℕ → Str
  pub safe_dump : List Str → Str
  pub generated_at : Str

module _ (J : JiraServer) (same : Str → Str → Bool) (out : Outside) where
  -- `db_service = DatabaseService(dsn)`; the DSN is parsed for each connection
  abbrev pub open_service : Str → Act J Unit
  open_service dsn = modify λ w. record w { db = record w.db { dsn_error = out.dsn_error dsn } }

  -- only if the run is not dry
  unfoldable pub connect : Bool → Config → Act J (Option JiraClient)
  connect true config = pure none
  connect false config = do
    client ← on_jira J (
        new_client J config.jira_server config.jira_user config.jira_api_token config.jira_project
          config.jira_issue_type config.jira_dns_failure_issue_type config.jira_excluded_statuses)
    pure (some client)

  abbrev task : Config → IpRecord → Task
  task config r = record {
    ip_record = r;
    completions = out.completions config.dnsbl_zones r;
    now = out.now r;
  }

  -- the loop over the records
  unfoldable pub process_records : Config → Option JiraClient → List IpRecord → Act J Stats
  process_records config jira_client ip_records =
      process_all J same config jira_client out.class_name out.resolve out.message
        (pos_part config.dns_timeout) no_stats (map (task config) ip_records)

  -- `health_tracker = HealthTracker(…)`
  abbrev pub set_tracker : HealthTracker → Act J Unit
  set_tracker t = modify λ w. record w { tracker = some t }

  abbrev pub supplemental :
      Result NetworkConnectivityResult → Result (Option NetworkConnectivityResult)
  supplemental (ok c) = ok (some c)
  supplemental (err e) = err e

  abbrev pub connectivity : Bool → Result (Option NetworkConnectivityResult)
  connectivity true = supplemental (check_connectivity out.new_resolver out.resolve_at)
  connectivity false = ok none

  -- the tracker that was made, as it has become
  abbrev pub current : HealthTracker → Tracked → HealthTracker
  current t none = t
  current t (some u) = u

  abbrev pub yaml_report : HealthSummary → Option Str
  yaml_report s =
      if ltb 0 s.broken_dnsbls
      then some (generate_pruned_yaml out.safe_dump out.generated_at s.dnsbl_health)
      else none

  abbrev pub run_report : JiraClient → HealthSummary → Act J Unit
  run_report client s = do
    issue_key ← on_jira J (
        create_or_update_run_report J client (generate_json_report out.float_repr out.isoformat s)
          (yaml_report s) (out.isoformat s.timestamp))
    pure tt

  -- the run report in VERBOSE mode; an exception ends no more than it
  unfoldable pub report : Bool → Option JiraClient → HealthSummary → Act J Unit
  report verbose none s = pure tt
  report false (some client) s = pure tt
  report true (some client) s = try_except (run_report client s) (λ e. pure tt)

  abbrev pub job_summary : List IpRecord → Stats → JobSummary
  job_summary ip_records total_stats = record {
    total_ips = length ip_records;
    listed = total_stats.listed;
    cleaned = total_stats.cleaned;
    unchanged = total_stats.unchanged;
    jira_created = total_stats.jira_created;
    jira_updated = total_stats.jira_updated;
    dns_failures = 0;
  }

  -- the summary, the reports and the end of the job
  unfoldable pub summarise :
      Config
      → Option JiraClient
      → HealthTracker
      → List IpRecord
      → Stats
      → Option NetworkConnectivityResult
      → Act J Unit
  unfolding report
  summarise config jira_client health_tracker ip_records total_stats network_connectivity = do
    tracked ← gets (λ w. w.tracker)
    health_summary ←
        lift
          (get_summary out.end out.timestamp (current health_tracker tracked) network_connectivity)
    report config.verbose jira_client health_summary
    on_log J (log_job_summary (job_summary ip_records total_stats))

  -- what follows the loop
  unfoldable pub finish :
      Config → Option JiraClient → HealthTracker → List IpRecord → Stats → Act J Unit
  unfolding summarise
  finish config jira_client health_tracker ip_records total_stats = do
    network_connectivity ← lift (connectivity config.enable_network_connectivity_check)
    summarise config jira_client health_tracker ip_records total_stats network_connectivity

  -- the records, the tracker and the loop
  unfoldable pub check_all : Config → Option JiraClient → Act J Unit
  unfolding process_records finish
  check_all config jira_client = do
    ip_records ← on_db J get_all_ips
    health_tracker ← lift (init config.dnsbl_zones)
    set_tracker health_tracker
    total_stats ← process_records config jira_client ip_records
    finish config jira_client health_tracker ip_records total_stats

  -- the `try` block, from the services on
  unfoldable pub job : Config → Act J Unit
  unfolding connect check_all
  job config = do
    open_service (get_db_connection_string config)
    jira_client ← connect config.dry_run config
    check_all config jira_client

  unfoldable pub load_and_run : Act J Unit
  unfolding job
  load_and_run = do config ← lift (from_env out.env).0; job config

  -- the exit code
  abbrev pub exit_code : Result (Unit {0}) → ℕ
  exit_code (ok a) = 0
  exit_code (err e) = 1

  unfoldable pub main : World J.State → ℕ × World J.State
  unfolding load_and_run
  main w = let (result, w') = load_and_run w in (exit_code result, w')
