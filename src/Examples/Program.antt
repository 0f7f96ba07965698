-- ===== src/Examples/Program.antt =====
-- The whole program.
use postal_dnsbl_monitor.Common.{
  ℕ, suc, Str, codes, ◌≡◌, refl, Bool, true, false, Option, none, some, List, [], ◌∷◌, str_eq,
  contains, if◌then◌else◌, All,
}
use postal_dnsbl_monitor.Common.Exec.{value_error, ok}
use postal_dnsbl_monitor.Common.Split.{has}
use postal_dnsbl_monitor.Config.{Config, Env, from_env, get_db_connection_string}
use postal_dnsbl_monitor.Services.DnsChecker.{Completion}
use postal_dnsbl_monitor.Services.JiraClient.{JiraServer}
use postal_dnsbl_monitor.Main.Program.{Outside, main}
use postal_dnsbl_monitor.Main.Program.Dry.{kept, main-dry_run}
use postal_dnsbl_monitor.Main.Program.Summary.{Ended, main-Ended}
use postal_dnsbl_monitor.Main.Program.Ending.{main-ends}
use postal_dnsbl_monitor.Services.DnsChecker.Coverage.{Within}
use postal_dnsbl_monitor.Services.JiraClient.Answers.{Answers}
use postal_dnsbl_monitor.Examples.{class_name, message, clean_row, failing_jira, world, resolve}

-- The variables that are required, and DRY_RUN.
abbrev variables : Str → Env
variables dry_run key =
    if contains
      (codes "DB_DSN"
        ∷ codes "DB_PORT"
        ∷ codes "DNS_TIMEOUT"
        ∷ codes "DNS_CONCURRENCY"
        ∷ codes "LISTED_PRIORITY"
        ∷ codes "CLEAN_FALLBACK_PRIORITY"
        ∷ codes "JIRA_EXCLUDED_STATUSES"
        ∷ codes "ENABLE_NETWORK_CONNECTIVITY_CHECK"
        ∷ codes "VERBOSE"
        ∷ [])
      key
    then none
    else if str_eq key (codes "DRY_RUN")
    then some dry_run
    else if str_eq key (codes "JIRA_SERVER")
    then some (codes "https://j")
    else some (codes "zen.org, cop.net")

abbrev checks : List Completion
checks = record { zone = codes "zen.org"; at = 7 } ∷ record { zone = codes "cop.net"; at = 9 } ∷ []

abbrev outside : Str → Outside
outside dry_run = record {
  env = variables dry_run;
  class_name = class_name;
  message = message;
  resolve = resolve;
  dsn_error =
      λ dsn. if has b'#' dsn then some (value_error (codes "Port could not be cast")) else none;
  new_resolver = λ server. none;
  resolve_at = λ server. ok (codes "142.250.0.1" ∷ []);
  completions = λ zones r. checks;
  now = λ r. 3;
  end = 20;
  timestamp = 30;
  isoformat = λ at. codes "2026-01-01T00:00:00";
  float_repr = λ numerator denominator. codes "0.5";
  safe_dump = λ zones. [];
  generated_at = codes "2026-01-01T00:00:00";
}

loads_dry :
    (c : Config) × ((from_env (variables (codes "Yes"))).0 ≡ ok c)
    × (c.dry_run ≡ true)
    × Within c.dnsbl_zones checks
unfolding from_env postal_dnsbl_monitor.Config.db_settings contains str_eq
    postal_dnsbl_monitor.Config.get_required_env postal_dnsbl_monitor.Config.int_env
    postal_dnsbl_monitor.Common.Parse.int postal_dnsbl_monitor.Common.Split.strip
    postal_dnsbl_monitor.Common.Split.lstrip postal_dnsbl_monitor.Common.Split.is_space
    postal_dnsbl_monitor.Config.items postal_dnsbl_monitor.Config.stripped
    postal_dnsbl_monitor.Common.Split.split postal_dnsbl_monitor.Common.Split.onto_first
    postal_dnsbl_monitor.Services.DnsChecker.starts_with postal_dnsbl_monitor.Config.is_true
loads_dry = (_, refl, refl, (refl, (refl, tt)))

main-dry_run_example :
    kept failing_jira str_eq (main failing_jira str_eq (outside (codes "Yes")) (world clean_row)).1
    ≡ kept failing_jira str_eq (world clean_row)
main-dry_run_example =
    main-dry_run failing_jira str_eq (outside (codes "Yes")) loads_dry.0 (world clean_row)
      loads_dry.1 loads_dry.2

-- Jira finds no issue, and creates one.
abbrev new_jira : JiraServer
new_jira = record {
  State = ℕ;
  connect = λ server user token s. (ok tt, s);
  search_issues = λ query limit s. (ok [], s);
  create_issue = λ fields s. (ok (codes "OPS-1"), suc s);
  add_comment = λ key comment s. (ok tt, s);
  transitions = λ key s. (ok [], s);
  transition_issue = λ key id s. (ok tt, s);
  sleep = λ seconds s. s;
}

new_jira-Answers : Answers new_jira
new_jira-Answers = record {
  connects = λ server user token s p. tt;
  searches = λ query limit s p. tt;
  creates = λ fields s p. tt;
  comments = λ key text s p. tt;
  lists = λ key s p. tt;
  moves = λ key id s p. tt;
}

loads_wet :
    (c : Config) × ((from_env (variables (codes "no"))).0 ≡ ok c)
    × (c.dry_run ≡ false)
    × Within c.dnsbl_zones checks
    × ((outside (codes "no")).dsn_error (get_db_connection_string c) ≡ none)
unfolding from_env postal_dnsbl_monitor.Config.db_settings contains str_eq
    postal_dnsbl_monitor.Config.get_required_env postal_dnsbl_monitor.Config.int_env
    postal_dnsbl_monitor.Common.Parse.int postal_dnsbl_monitor.Common.Split.strip
    postal_dnsbl_monitor.Common.Split.lstrip postal_dnsbl_monitor.Common.Split.is_space
    postal_dnsbl_monitor.Config.items postal_dnsbl_monitor.Config.stripped
    postal_dnsbl_monitor.Common.Split.split postal_dnsbl_monitor.Common.Split.onto_first
    postal_dnsbl_monitor.Services.DnsChecker.starts_with postal_dnsbl_monitor.Config.is_true has
    get_db_connection_string postal_dnsbl_monitor.Common.Show.show
loads_wet = (_, refl, refl, (refl, (refl, tt)), refl)

main-ends_example : (main new_jira str_eq (outside (codes "no")) (world clean_row)).0 ≡ 0
main-ends_example =
    main-ends new_jira str_eq (outside (codes "no")) loads_wet.0 (world clean_row) loads_wet.1
      loads_wet.4 (λ wet. new_jira-Answers) (λ e s. refl) (λ r. loads_wet.3) refl

main-Ended_example : Ended (main new_jira str_eq (outside (codes "no")) (world clean_row)).1.log
main-Ended_example =
    main-Ended new_jira str_eq (outside (codes "no")) loads_wet.0 (world clean_row) loads_wet.1
      loads_wet.2
      (main-ends new_jira str_eq (outside (codes "no")) loads_wet.0 (world clean_row) loads_wet.1
        loads_wet.4 (λ wet. new_jira-Answers) (λ e s. refl) (λ r. loads_wet.3) refl)
