-- ===== src/Main/Program/Dry.antt =====
-- A job with DRY_RUN set.
use postal_dnsbl_monitor.Common.{
  ℕ, Str, ◌≡◌, refl, Bool, true, false, Option, none, some, List, [], ◌∷◌, ap,
}
use postal_dnsbl_monitor.Common.Ensures.{Keeps, Keeps-bind}
use postal_dnsbl_monitor.Common.Exec.{Exn, Result, ok, lift, ◌>>◌, ◌>>=◌}
use postal_dnsbl_monitor.Config.{Config, from_env, get_db_connection_string}
use postal_dnsbl_monitor.Models.DnsblHealth.{NetworkConnectivityResult}
use postal_dnsbl_monitor.Models.DnsResult.{DnsResult}
use postal_dnsbl_monitor.Models.IpRecord.{IpRecord}
use postal_dnsbl_monitor.Models.StateTransition.{StateTransition, determine_state_transition}
use postal_dnsbl_monitor.Services.Database.Edits.{get_all_ips-table}
use postal_dnsbl_monitor.Services.Database.{Row, get_all_ips}
use postal_dnsbl_monitor.Services.DnsChecker.{Completion, check_ip_concurrent}
use postal_dnsbl_monitor.Services.HealthTracker.{HealthTracker, init, get_summary}
use postal_dnsbl_monitor.Services.JiraClient.{JiraServer, JiraClient}
use postal_dnsbl_monitor.Services.Logger.{log_ip_check, log_job_summary}
use postal_dnsbl_monitor.Main.{
  World, Act, Stats, process_ip, recovery, conclude, on_tracker, on_db, on_log, start_check,
}
use postal_dnsbl_monitor.Main.Refinement.{recovery-dry_run, apply_transition-dry_run}
use postal_dnsbl_monitor.Main.Job.{Task, process_all, add_stats}
use postal_dnsbl_monitor.Main.Program.{
  summarise, open_service, Outside, set_tracker, job_summary, connectivity, current, finish,
  check_all, connect, job, load_and_run, main, process_records, report,
}

module _ (J : JiraServer) (same : Str → Str → Bool) where
  -- The table of the database and the state of Jira.
  abbrev pub kept : World J.State → List Row × J.State
  kept w = (w.db.table, w.jira)

  module _ (config : Config) (jira_client : Option JiraClient) (class_name : Exn → Str)
      (resolve : Str → ℕ → Result (List Str)) (message : Exn → Str) (dns_timeout : ℕ)
      (dry : config.dry_run ≡ true) where
    conclude-Keeps :
        (r : IpRecord) (rs : List DnsResult) (recovered : Bool) (t : Option StateTransition)
        → Keeps kept (conclude J same config jira_client r rs recovered t)
    unfolding conclude log_ip_check
    conclude-Keeps r rs recovered none w = refl
    conclude-Keeps r rs recovered (some t) w =
        rw
          (apply_transition-dry_run J same config jira_client class_name resolve message dns_timeout
            r t _ w dry)
          refl

    process_ip-Keeps :
        (r : IpRecord) (cs : List Completion) (now : ℕ)
        → Keeps kept
            (process_ip J same config jira_client class_name resolve message dns_timeout r cs now)
    unfolding process_ip
    process_ip-Keeps r cs now =
        Keeps-bind kept (recovery J config jira_client r) _
          (λ w.
            rw
              (recovery-dry_run J same config jira_client class_name resolve message dns_timeout r w
                dry)
              refl)
          (λ recovered.
            Keeps-bind kept (on_tracker J (start_check J now)) _ (λ w. refl)
              (λ _.
                Keeps-bind kept
                  (on_tracker J
                    (check_ip_concurrent class_name resolve message r.ip dns_timeout cs))
                  _ (λ w. refl)
                  (λ rs. conclude-Keeps r rs recovered (determine_state_transition r rs))))

    process_all-Keeps :
        (total : Stats) (tasks : List Task)
        → Keeps kept (
            process_all J same config jira_client class_name resolve message dns_timeout total
              tasks)
    unfolding process_all
    process_all-Keeps total [] w = refl
    process_all-Keeps total (t ∷ tasks) w =
        Keeps-bind kept
          (process_ip J same config jira_client class_name resolve message dns_timeout t.ip_record
            t.completions t.now)
          _ (process_ip-Keeps t.ip_record t.completions t.now)
          (λ stats. process_all-Keeps (add_stats total stats) tasks) w

  get_all_ips-Keeps : Keeps kept (on_db J get_all_ips)
  get_all_ips-Keeps w = ap (λ table. (table, w.jira)) (get_all_ips-table w.db)

  module _ (out : Outside) where
    connect-Keeps :
        (dry : Bool) (config : Config) (k : Option JiraClient → Act J Unit)
        → dry ≡ true
        → Keeps kept (k none)
        → Keeps kept (connect J same out dry config >>= k)
    unfolding connect
    connect-Keeps true config k e h w = h w
    connect-Keeps false config k e h w = cc

    process_records-Keeps :
        (config : Config) (jira_client : Option JiraClient) (rs : List IpRecord)
        → config.dry_run ≡ true
        → Keeps kept (process_records J same out config jira_client rs)
    unfolding process_records
    process_records-Keeps config jira_client rs dry =
        process_all-Keeps config jira_client _ _ _ _ dry _ _

    summarise-Keeps :
        (config : Config) (t : HealthTracker) (rs : List IpRecord) (total : Stats)
        (c : Option NetworkConnectivityResult)
        → Keeps kept (summarise J same out config none t rs total c)
    unfolding summarise report
    summarise-Keeps config t rs total c w =
        Keeps-bind kept
          (lift (get_summary out.end out.timestamp (current J same out t w.tracker) c))
          (λ s.
            report J same out config.verbose none s
            >> on_log J (log_job_summary (job_summary J same out rs total)))
          (λ w. refl) (λ s w. refl) w

    finish-Keeps :
        (config : Config) (t : HealthTracker) (rs : List IpRecord) (total : Stats)
        → Keeps kept (finish J same out config none t rs total)
    unfolding finish
    finish-Keeps config t rs total =
        Keeps-bind kept (lift (connectivity J same out config.enable_network_connectivity_check))
          (summarise J same out config none t rs total) (λ w. refl)
          (summarise-Keeps config t rs total)

    check_all-Keeps :
        (config : Config) → config.dry_run ≡ true → Keeps kept (check_all J same out config none)
    unfolding check_all
    check_all-Keeps config dry = Keeps-bind kept (on_db J get_all_ips) _ get_all_ips-Keeps (λ rs.
        Keeps-bind kept (lift (init config.dnsbl_zones)) _ (λ w. refl)
          (λ t.
            Keeps-bind kept (set_tracker J same out t)
              (λ _.
                process_records J same out config none rs >>= finish J same out config none t rs)
              (λ w. refl)
              (λ _.
                Keeps-bind kept (process_records J same out config none rs)
                  (finish J same out config none t rs) (process_records-Keeps config none rs dry)
                  (finish-Keeps config t rs))))

    job-Keeps : (config : Config) → config.dry_run ≡ true → Keeps kept (job J same out config)
    unfolding job
    job-Keeps config dry =
        Keeps-bind kept (open_service J same out (get_db_connection_string config))
          (λ _. connect J same out config.dry_run config >>= check_all J same out config)
          (λ w. refl)
          (λ _.
            connect-Keeps config.dry_run config (check_all J same out config) dry
              (check_all-Keeps config dry))

  -- If the configuration says to run dry, a job leaves the table and Jira as they were, whatever
  -- fails on the way.
  pub main-dry_run :
      (out : Outside) (config : Config) (w : World J.State)
      → (from_env out.env).0 ≡ ok config
      → config.dry_run ≡ true
      → kept (main J same out w).1 ≡ kept w
  unfolding main load_and_run
  main-dry_run out config w loaded dry = rw loaded (job-Keeps out config dry w)
