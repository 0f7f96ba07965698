-- ===== src/Main/Program/Summary.antt =====
-- The line "Job completed" of a job, and its exit code.
use mathlib.Core.Path.{subst}
use postal_dnsbl_monitor.Common.{
  ◌+◌, ◌≤◌, Str, ◌≡◌, refl, Bool, false, Option, List, [], ◌∷◌, ◌++◌, map, length, arith,
}
use postal_dnsbl_monitor.Common.Ensures.{Ensures, Leaves, Leaves-continue, Leaves-Ensures}
use postal_dnsbl_monitor.Common.Exec.{Result, ok, err, lift, ◌>>=◌, ◌>>◌}
use postal_dnsbl_monitor.Config.{Config, from_env}
use postal_dnsbl_monitor.Models.DnsblHealth.{NetworkConnectivityResult}
use postal_dnsbl_monitor.Models.IpRecord.{IpRecord}
use postal_dnsbl_monitor.Services.Database.{get_all_ips}
use postal_dnsbl_monitor.Services.HealthTracker.{HealthTracker, init, get_summary}
use postal_dnsbl_monitor.Services.JiraClient.{JiraServer, JiraClient}
use postal_dnsbl_monitor.Services.Logger.{JobSummary, LogEntry, job_completed, log_job_summary}
use postal_dnsbl_monitor.Main.{World, Act, Stats, on_db, on_log}
use postal_dnsbl_monitor.Main.Job.{CountsAll, process_all-counts}
use postal_dnsbl_monitor.Main.Program.{
  summarise, Outside, exit_code, main, load_and_run, job, check_all, process_records, finish,
  job_summary, task, set_tracker, report, current, connectivity,
}

-- The log ends with a summary that counts each of its addresses once.
pub record Ended (log : List LogEntry) : Type 0 where
  pub before : List LogEntry
  pub summary : JobSummary
  pub last : log ≡ before ++ (job_completed summary ∷ [])
  pub each_once : summary.listed + summary.cleaned + summary.unchanged ≡ summary.total_ips
  pub created : summary.jira_created ≤ summary.total_ips
  pub updated : summary.jira_updated ≤ summary.total_ips
  pub no_dns_failures : summary.dns_failures ≡ 0

length-map : {A B : Type 0} (f : A → B) (xs : List A) → length (map f xs) ≡ length xs
length-map f [] = refl
length-map f (x ∷ xs) = rw (length-map f xs) refl

module _ (J : JiraServer) (same : Str → Str → Bool) (out : Outside) where
  abbrev Ends : World J.State → Type 0
  Ends w = Ended w.log

  logged-Ends :
      (rs : List IpRecord) (total : Stats) (w : World J.State)
      → CountsAll (length rs) total
      → Leaves Ends (on_log J (log_job_summary (job_summary J same out rs total)) w)
  unfolding log_job_summary
  logged-Ends rs total w h = record {
    before = w.log;
    summary = job_summary J same out rs total;
    last = refl;
    each_once = h.0;
    created = h.1;
    updated = h.2;
    no_dns_failures = refl;
  }

  summarise-Ends :
      (config : Config) (client : Option JiraClient) (t : HealthTracker) (rs : List IpRecord)
      (total : Stats) (c : Option NetworkConnectivityResult) (w : World J.State)
      → CountsAll (length rs) total
      → Leaves Ends (summarise J same out config client t rs total c w)
  unfolding summarise
  summarise-Ends config client t rs total c w h =
      let log_it = on_log J (log_job_summary (job_summary J same out rs total)) in
      Leaves-continue Ends (get_summary out.end out.timestamp (current J same out t w.tracker) c)
        (λ s. report J same out config.verbose client s >> log_it) w
        (λ s u.
          Leaves-continue Ends (report J same out config.verbose client s u).0 (λ _. log_it)
            (report J same out config.verbose client s u).1 (λ _ v. logged-Ends rs total v h))

  finish-Ends :
      (config : Config) (client : Option JiraClient) (t : HealthTracker) (rs : List IpRecord)
      (total : Stats) (w : World J.State)
      → CountsAll (length rs) total
      → Leaves Ends (finish J same out config client t rs total w)
  unfolding finish
  finish-Ends config client t rs total w h =
      Leaves-continue Ends (connectivity J same out config.enable_network_connectivity_check)
        (summarise J same out config client t rs total) w
        (λ c u. summarise-Ends config client t rs total c u h)

  process_records-CountsAll :
      (config : Config) (client : Option JiraClient) (rs : List IpRecord) (w : World J.State)
      → config.dry_run ≡ false
      → Ensures (CountsAll (length rs)) (process_records J same out config client rs w)
  unfolding process_records
  process_records-CountsAll config client rs w wet =
      subst (λ n. Ensures (CountsAll n) (process_records J same out config client rs w))
        (length-map (task J same out config) rs)
        (process_all-counts J same config client _ _ _ _ (map (task J same out config) rs) w wet)

  abbrev start : Config → Option JiraClient → List IpRecord → HealthTracker → Act J Unit
  start config client rs t =
      set_tracker J same out t
      >> (process_records J same out config client rs >>= finish J same out config client t rs)

  check_all-Ends :
      (config : Config) (client : Option JiraClient) (w : World J.State)
      → config.dry_run ≡ false
      → Leaves Ends (check_all J same out config client w)
  unfolding check_all
  check_all-Ends config client w wet =
      Leaves-continue Ends (on_db J get_all_ips w).0
        (λ rs. lift (init config.dnsbl_zones) >>= start config client rs) (on_db J get_all_ips w).1
        (λ rs v. Leaves-continue Ends (init config.dnsbl_zones) (start config client rs) v (λ t u.
          Leaves-Ensures (CountsAll (length rs)) Ends _ (finish J same out config client t rs) _
            (process_records-CountsAll config client rs _ wet)
            (λ total x. finish-Ends config client t rs total x)))

  job-Ends :
      (config : Config) (w : World J.State)
      → config.dry_run ≡ false
      → Leaves Ends (job J same out config w)
  unfolding job
  job-Ends config w wet =
      Leaves-continue Ends _ _ _ (λ client v. check_all-Ends config client v wet)

  exit_zero :
      (o : Result Unit × World J.State) → exit_code J same out o.0 ≡ 0 → Leaves Ends o → Ends o.1
  exit_zero (ok a, w) e h = h
  exit_zero (err x, w) e h = ground arith

  -- If the configuration says not to run dry and the exit code of the job is 0, its log ends with
  -- a summary in which the listed, the cleaned and the unchanged addresses add up to all of them,
  -- its counters of created and of updated issues are at most as many, and its number of DNS failures
  -- is 0, whatever became of the checks.
  pub main-Ended :
      (config : Config) (w : World J.State)
      → (from_env out.env).0 ≡ ok config
      → config.dry_run ≡ false
      → (main J same out w).0 ≡ 0
      → Ended (main J same out w).1.log
  unfolding main load_and_run
  main-Ended config w loaded wet zero =
      exit_zero (load_and_run J same out w) zero (rw loaded (job-Ends config w wet))
