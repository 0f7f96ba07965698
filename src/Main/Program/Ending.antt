-- ===== src/Main/Program/Ending.antt =====
-- That a job comes to its end where MySQL and Jira answer.
use postal_dnsbl_monitor.Common.{
  ℕ, codes, Str, ◌≡◌, ◌≢◌, refl, Bool, true, false, Option, none, some, List, [], ◌∷◌, All, map,
  arith,
}
use postal_dnsbl_monitor.Common.Ensures.{Succeeds, Succeeds-continue, Leads, Leads-bind, Ensures-ok}
use postal_dnsbl_monitor.Common.Exec.{
  Result, ok, err, pure, lift, recover, try_except, continue, ◌>>=◌, ◌>>◌,
}
use postal_dnsbl_monitor.Config.{Config, from_env, get_db_connection_string}
use postal_dnsbl_monitor.Config.Valid.{IsValid, from_env-IsValid}
use postal_dnsbl_monitor.Models.DnsblHealth.{NetworkConnectivityResult, HealthSummary}
use postal_dnsbl_monitor.Models.IpRecord.{IpRecord}
use postal_dnsbl_monitor.Services.Database.{get_all_ips, get_db_connection}
use postal_dnsbl_monitor.Services.DnsChecker.{Tracked}
use postal_dnsbl_monitor.Services.DnsChecker.Coverage.{
  Within, Covers, Covers-init, Covers-size, init-made,
}
use postal_dnsbl_monitor.Services.HealthTracker.{HealthTracker, init, get_summary}
use postal_dnsbl_monitor.Services.JiraClient.{JiraServer, JiraClient, new_client}
use postal_dnsbl_monitor.Services.JiraClient.Answers.{Answers, Always, new_client-Returns}
use postal_dnsbl_monitor.Services.Logger.{log_job_summary}
use postal_dnsbl_monitor.Utils.NetworkCheck.{check_connectivity}
use postal_dnsbl_monitor.Main.{World, Act, Stats, no_stats, on_db, on_jira, on_log, process_ip}
use postal_dnsbl_monitor.Main.Live.{Ready, Good, Live, process_ip-Live}
use postal_dnsbl_monitor.Main.Job.{Task, process_all, add_stats}
use postal_dnsbl_monitor.Main.Program.{
  summarise, Outside, exit_code, main, load_and_run, job, connect, check_all, process_records,
  finish, job_summary, task, set_tracker, report, run_report, current, connectivity,
}

module _ (J : JiraServer) (same : Str → Str → Bool) (out : Outside) (config : Config) where
  -- The zones are those of the configuration.
  abbrev Fit : World J.State → Type 0
  Fit = Good J config.dnsbl_zones

  -- The DSN parses, and the database raises nothing.
  abbrev Calm : World J.State → Type 0
  Calm w = (w.db.faults ≡ []) × (w.db.dsn_error ≡ none)

  -- A resolver can be made for each of the two nameservers, if they are asked.
  abbrev pub Resolvable : Type 0
  Resolvable =
      config.enable_network_connectivity_check ≡ true
      → (nameserver : Str) → out.new_resolver nameserver ≡ none

  -- The completions of a record are checks of the zones.
  abbrev pub Complete : Type 0
  Complete = (r : IpRecord) → Within config.dnsbl_zones (out.completions config.dnsbl_zones r)

  process_all-Live :
      (jira_client : Option JiraClient) (dns_timeout : ℕ) (total : Stats) (tasks : List Task)
      → Ready J jira_client
      → All (λ t. Within config.dnsbl_zones t.completions) tasks
      → Live J config.dnsbl_zones (
          process_all J same config jira_client out.class_name out.resolve out.message dns_timeout
            total tasks)
  unfolding process_all
  process_all-Live jira_client dns_timeout total [] ready within w g = g
  process_all-Live jira_client dns_timeout total (t ∷ tasks) ready within w g =
      Leads-bind Fit Fit Fit
        (process_ip J same config jira_client out.class_name out.resolve out.message dns_timeout
          t.ip_record t.completions t.now)
        (λ stats.
          process_all J same config jira_client out.class_name out.resolve out.message dns_timeout
            (add_stats total stats) tasks)
        (process_ip-Live J config.dnsbl_zones same config jira_client ready out.class_name
          out.resolve out.message dns_timeout t.ip_record t.completions t.now within.0)
        (λ stats.
          process_all-Live jira_client dns_timeout (add_stats total stats) tasks ready within.1)
        w g

  tasks-Within :
      Complete
      → (rs : List IpRecord)
      → All (λ t. Within config.dnsbl_zones t.completions) (map (task J same out config) rs)
  tasks-Within complete [] = tt
  tasks-Within complete (r ∷ rs) = (complete r, tasks-Within complete rs)

  process_records-Live :
      (jira_client : Option JiraClient) (rs : List IpRecord)
      → Ready J jira_client
      → Complete
      → Live J config.dnsbl_zones (process_records J same out config jira_client rs)
  unfolding process_records
  process_records-Live jira_client rs ready complete =
      process_all-Live jira_client _ no_stats (map (task J same out config) rs) ready
        (tasks-Within complete rs)

  get_all_ips-Calm : Leads Calm Calm (on_db J get_all_ips)
  unfolding get_all_ips get_db_connection
  get_all_ips-Calm w calm = rw (calm.0, calm.1) (refl, refl)

  -- `try: m` with a handler that returns.
  caught : {A : Type 0} (m : Act J A) (a : A) → Leads Always Always (try_except m (λ e. pure a))
  caught {A} m a w p = go (m w).0
    where
      go : (r : Result A) → Succeeds Always (recover r (λ e. pure a) (m w).1)
      go (ok b) = tt
      go (err e) = tt

  report-Returns :
      (verbose : Bool) (jira_client : Option JiraClient) (s : HealthSummary)
      → Leads Always Always (report J same out verbose jira_client s)
  unfolding report
  report-Returns verbose none s w p = tt
  report-Returns false (some client) s w p = tt
  report-Returns true (some client) s w p = caught (run_report J same out client s) tt w p

  get_summary-Succeeds :
      (t : HealthTracker) (u : Tracked) (c : Option NetworkConnectivityResult) (w : World J.State)
      → config.dnsbl_zones ≢ []
      → Covers config.dnsbl_zones u
      → Succeeds Always (get_summary out.end out.timestamp (current J same out t u) c, w)
  unfolding get_summary
  get_summary-Succeeds t none c w some_zone h = absurd h
  get_summary-Succeeds t (some u) c w some_zone h =
      ground (arith, Covers-size config.dnsbl_zones u some_zone h)

  summarise-Returns :
      (jira_client : Option JiraClient) (t : HealthTracker) (rs : List IpRecord) (total : Stats)
      (c : Option NetworkConnectivityResult)
      → config.dnsbl_zones ≢ []
      → Leads Fit Always (summarise J same out config jira_client t rs total c)
  unfolding summarise log_job_summary
  summarise-Returns jira_client t rs total c some_zone w g =
      Succeeds-continue Always Always _
        (λ s.
          report J same out config.verbose jira_client s
          >> on_log J (log_job_summary (job_summary J same out rs total)))
        w (get_summary-Succeeds t w.tracker c w some_zone g.2)
        (λ s.
          Leads-bind Always Always Always (report J same out config.verbose jira_client s) _
            (report-Returns config.verbose jira_client s) (λ _ v p. tt))

  -- The supplemental check returns, if its resolvers can be made.
  connectivity-Fit :
      (enabled : Bool)
      → (enabled ≡ true → (nameserver : Str) → out.new_resolver nameserver ≡ none)
      → Leads Fit Fit (lift (connectivity J same out enabled))
  unfolding check_connectivity
  connectivity-Fit false h w g = g
  connectivity-Fit true h w g = rw (h refl (codes "1.1.1.1"), h refl (codes "8.8.8.8")) g

  finish-Returns :
      (jira_client : Option JiraClient) (t : HealthTracker) (rs : List IpRecord) (total : Stats)
      → config.dnsbl_zones ≢ []
      → Resolvable
      → Leads Fit Always (finish J same out config jira_client t rs total)
  unfolding finish
  finish-Returns jira_client t rs total some_zone resolvable =
      Leads-bind Fit Fit Always
        (lift (connectivity J same out config.enable_network_connectivity_check))
        (summarise J same out config jira_client t rs total)
        (connectivity-Fit config.enable_network_connectivity_check resolvable)
        (λ c. summarise-Returns jira_client t rs total c some_zone)

  -- from the tracker on
  abbrev from_tracker : Option JiraClient → List IpRecord → HealthTracker → Act J Unit
  from_tracker jira_client rs t =
      set_tracker J same out t
      >> (process_records J same out config jira_client rs
          >>= finish J same out config jira_client t rs)

  module _ (jira_client : Option JiraClient) (ready : Ready J jira_client)
      (some_zone : config.dnsbl_zones ≢ []) (resolvable : Resolvable) (complete : Complete) where
    from_tracker-Returns :
        (rs : List IpRecord) (made : Result HealthTracker) (w : World J.State)
        → init config.dnsbl_zones ≡ made
        → Calm w
        → Succeeds Always (continue made (from_tracker jira_client rs) w)
    from_tracker-Returns rs (ok t) w e calm =
        Leads-bind Fit Fit Always (process_records J same out config jira_client rs)
          (finish J same out config jira_client t rs)
          (process_records-Live jira_client rs ready complete)
          (λ total. finish-Returns jira_client t rs total some_zone resolvable)
          (record w { tracker = some t }) (calm.0, calm.1, Covers-init config.dnsbl_zones e)
    from_tracker-Returns rs (err x) w e calm =
        let (t, made) = init-made config.dnsbl_zones some_zone in absurd (cc)

    check_all-Returns : Leads Calm Always (check_all J same out config jira_client)
    unfolding check_all
    check_all-Returns w calm =
        Succeeds-continue Calm Always _
          (λ rs. lift (init config.dnsbl_zones) >>= from_tracker jira_client rs) _
          (get_all_ips-Calm w calm)
          (λ rs v calm. from_tracker-Returns rs (init config.dnsbl_zones) v refl calm)

  -- Jira answers, if the run is not dry.
  abbrev pub Answered : Bool → Type 0
  Answered dry = dry ≡ false → Answers J

  any_client : Answers J → (client : Option JiraClient) → Ready J client
  any_client answers none = tt
  any_client answers (some client) = answers

  jira-Calm :
      {A : Type 0} (w : World J.State) (o : Result A × J.State)
      → Calm w
      → Succeeds Always o
      → Succeeds Calm (o.0, record w { jira = o.1 })
  jira-Calm w (ok a, s) calm h = calm
  jira-Calm w (err e, s) calm h = absurd h

  client-Calm : Answers J → Leads Calm Calm (connect J same out false config)
  unfolding connect
  client-Calm answers w calm =
      let made =
        new_client J config.jira_server config.jira_user config.jira_api_token config.jira_project
          config.jira_issue_type config.jira_dns_failure_issue_type config.jira_excluded_statuses in
      Leads-bind Calm Calm Calm (on_jira J made) (λ client. pure (some client))
        (λ w calm.
          jira-Calm w (made w.jira) calm (new_client-Returns J answers _ _ _ _ _ _ _ w.jira tt))
        (λ client w calm. calm) w calm

  connected :
      (dry : Bool) (k : Option JiraClient → Act J Unit)
      → Answered dry
      → ((client : Option JiraClient) → Ready J client → Leads Calm Always (k client))
      → Leads Calm Always (connect J same out dry config >>= k)
  connected true k answered h = unfold connect in h none tt
  connected false k answered h =
      Leads-bind Calm Calm Always (connect J same out false config) k (client-Calm (answered refl))
        (λ client. h client (any_client (answered refl) client))

  job-Returns :
      Answered config.dry_run
      → config.dnsbl_zones ≢ []
      → Resolvable
      → Complete
      → (w : World J.State) → out.dsn_error (get_db_connection_string config) ≡ none
      → w.db.faults ≡ []
      → Succeeds Always (job J same out config w)
  unfolding job
  job-Returns answered some_zone resolvable complete w parses calm =
      connected config.dry_run (check_all J same out config) answered
        (λ client ready. check_all-Returns client ready some_zone resolvable complete)
        (record w {
          db = record w.db { dsn_error = out.dsn_error (get_db_connection_string config) };
        })
        (calm, parses)

  exit_code-Succeeds :
      (o : Result Unit × World J.State) → Succeeds Always o → exit_code J same out o.0 ≡ 0
  exit_code-Succeeds (ok a, w) h = refl
  exit_code-Succeeds (err e, w) h = absurd h

  -- If the completions of each record are checks of the configured zones, the DSN of the
  -- configuration parses, the database raises nothing, a resolver can be made for each nameserver
  -- that the supplemental check asks, and the calls of Jira return or the configuration says to run
  -- dry, then the job ends with exit code 0, whatever DNS answers.
  pub main-ends :
      (w : World J.State)
      → (from_env out.env).0 ≡ ok config
      → out.dsn_error (get_db_connection_string config) ≡ none
      → Answered config.dry_run
      → Resolvable
      → Complete
      → w.db.faults ≡ []
      → (main J same out w).0 ≡ 0
  unfolding main load_and_run
  main-ends w loaded parses answered resolvable complete calm =
      let valid = Ensures-ok IsValid (from_env out.env) loaded (from_env-IsValid out.env) in
      rw loaded (
        exit_code-Succeeds (job J same out config w)
          (job-Returns answered valid.some_zone resolvable complete w parses calm))
