-- ===== src/Config.antt =====
-- src/config.py. Environment has the readings of a variable and the checks of its value.
pub mod Environment
pub mod Valid
pub mod Errors
use postal_dnsbl_monitor.Common.{
  ℕ, Str, codes, Bool, true, false, not, ◌&&◌, Option, none, some, List, [], ◌∷◌, ◌++◌, map,
  contains, if◌then◌else◌, leb, ◌+◌,
}
use postal_dnsbl_monitor.Common.Int.{ℤ, pos, negsuc, leb_ℤ}
use postal_dnsbl_monitor.Common.Show.{show_ℤ}
use postal_dnsbl_monitor.Common.Parse.{int}
use postal_dnsbl_monitor.Common.Split.{split, strip, has}
use postal_dnsbl_monitor.Models.IpRecord.{non_empty}
use postal_dnsbl_monitor.Services.DnsChecker.{starts_with}
use postal_dnsbl_monitor.Services.JiraClient.{lower}
use postal_dnsbl_monitor.Common.Exec.{
  Exec, Result, ok, err, value_error, pure, raise, lift, gets, ◌>>=◌, ◌>>◌,
}
unfoldable pub use postal_dnsbl_monitor.Config.Environment.{
  Env, getenv, or_default, getenv_or, required, get_required_env, int_env, check, add_item,
  stripped, items, is_true, between, priorities_message,
}

pub record Config : Type 0 where
  pub db_host : Str
  pub db_port : ℤ
  pub db_name : Str
  pub db_user : Str
  pub db_password : Str
  pub db_dsn : Option Str
  pub dnsbl_zones : List Str
  pub dns_timeout : ℤ
  pub dns_concurrency : ℤ
  pub listed_priority : ℤ
  pub clean_fallback_priority : ℤ
  pub jira_server : Str
  pub jira_user : Str
  pub jira_api_token : Str
  pub jira_project : Str
  pub jira_issue_type : Str
  pub jira_dns_failure_issue_type : Str
  pub jira_excluded_statuses : List Str
  pub dry_run : Bool
  pub enable_network_connectivity_check : Bool
  pub verbose : Bool

pub record DbSettings : Type 0 where
  pub host : Str
  pub port : ℤ
  pub name : Str
  pub user : Str
  pub password : Str

abbrev pub last_or : Str → List Str → Str
last_or d [] = d
last_or d (s ∷ parts) = last_or s parts

abbrev pub first_or : Str → List Str → Str
first_or d [] = d
first_or d (s ∷ parts) = s

-- `dsn.split("@")[-1].split(":")[0] if "@" in dsn else ""`
unfoldable pub dsn_host : Str → Str
dsn_host dsn = if has b'@' dsn then first_or [] (split b':' (last_or [] (split b'@' dsn))) else []

abbrev pub db_parameters : Exec Env DbSettings
db_parameters = do
  host ← get_required_env (codes "DB_HOST")
  port ← int_env (codes "DB_PORT") (codes "3306")
  name ← get_required_env (codes "DB_NAME")
  user ← get_required_env (codes "DB_USER")
  password ← get_required_env (codes "DB_PASSWORD")
  pure (record { host = host; port = port; name = name; user = user; password = password })

unfoldable pub db_settings : Option Str → Exec Env DbSettings
db_settings (some (c ∷ dsn)) =
    pure
      (record { host = dsn_host (c ∷ dsn); port = pos 3306; name = []; user = []; password = [] })
db_settings _ = db_parameters

pub record DnsblSettings : Type 0 where
  pub zones : List Str
  pub timeout : ℤ
  pub concurrency : ℤ

-- "DNSBL Configuration"
unfoldable pub dnsbl_settings : Exec Env DnsblSettings
dnsbl_settings = do
  dnsbl_zones_str ← get_required_env (codes "DNSBL_ZONES")
  let zones = items dnsbl_zones_str
  check (non_empty zones) (codes "DNSBL_ZONES must contain at least one zone")
  timeout ← int_env (codes "DNS_TIMEOUT") (codes "5")
  check (between 1 60 timeout) (codes "DNS_TIMEOUT must be between 1 and 60 seconds")
  concurrency ← int_env (codes "DNS_CONCURRENCY") (codes "10")
  check (between 1 100 concurrency) (codes "DNS_CONCURRENCY must be between 1 and 100")
  pure (record { zones = zones; timeout = timeout; concurrency = concurrency })

pub record PrioritySettings : Type 0 where
  pub listed : ℤ
  pub fallback : ℤ

-- "Priority Configuration"
unfoldable pub priority_settings : Exec Env PrioritySettings
priority_settings = do
  listed ← int_env (codes "LISTED_PRIORITY") (codes "0")
  fallback ← int_env (codes "CLEAN_FALLBACK_PRIORITY") (codes "50")
  check (between 0 100 listed) (codes "LISTED_PRIORITY must be between 0 and 100")
  check (between 0 100 fallback) (codes "CLEAN_FALLBACK_PRIORITY must be between 0 and 100")
  check (not (leb_ℤ fallback listed)) (priorities_message listed fallback)
  pure (record { listed = listed; fallback = fallback })

pub record JiraSettings : Type 0 where
  pub server : Str
  pub user : Str
  pub api_token : Str
  pub project : Str
  pub issue_type : Str
  pub dns_failure_issue_type : Str
  pub excluded_statuses : List Str

-- "Jira Configuration"
unfoldable pub jira_settings : Exec Env JiraSettings
jira_settings = do
  server ← get_required_env (codes "JIRA_SERVER")
  check (starts_with server (codes "https://")) (codes "JIRA_SERVER must be an HTTPS URL")
  user ← get_required_env (codes "JIRA_USER")
  token ← get_required_env (codes "JIRA_API_TOKEN")
  project ← get_required_env (codes "JIRA_PROJECT")
  issue_type ← get_required_env (codes "JIRA_ISSUE_TYPE")
  failure_type ← get_required_env (codes "JIRA_DNS_FAILURE_ISSUE_TYPE")
  excluded ← getenv_or (codes "JIRA_EXCLUDED_STATUSES") (codes "Done,Closed,Resolved")
  pure (record {
    server = server;
    user = user;
    api_token = token;
    project = project;
    issue_type = issue_type;
    dns_failure_issue_type = failure_type;
    excluded_statuses = items excluded;
  })

unfoldable pub from_env : Exec Env Config
unfolding db_settings dnsbl_settings priority_settings jira_settings
from_env = do
  db_dsn ← getenv (codes "DB_DSN")
  db ← db_settings db_dsn
  dnsbl ← dnsbl_settings
  priorities ← priority_settings
  jira ← jira_settings
  dry_run_str ← getenv_or (codes "DRY_RUN") (codes "false")
  network_str ← getenv_or (codes "ENABLE_NETWORK_CONNECTIVITY_CHECK") (codes "true")
  verbose_str ← getenv_or (codes "VERBOSE") (codes "false")
  pure (record {
    db_host = db.host;
    db_port = db.port;
    db_name = db.name;
    db_user = db.user;
    db_password = db.password;
    db_dsn = db_dsn;
    dnsbl_zones = dnsbl.zones;
    dns_timeout = dnsbl.timeout;
    dns_concurrency = dnsbl.concurrency;
    listed_priority = priorities.listed;
    clean_fallback_priority = priorities.fallback;
    jira_server = jira.server;
    jira_user = jira.user;
    jira_api_token = jira.api_token;
    jira_project = jira.project;
    jira_issue_type = jira.issue_type;
    jira_dns_failure_issue_type = jira.dns_failure_issue_type;
    jira_excluded_statuses = jira.excluded_statuses;
    dry_run = is_true dry_run_str;
    enable_network_connectivity_check = is_true network_str;
    verbose = is_true verbose_str;
  })

-- `get_db_connection_string`
abbrev pub dsn_or : Config → Option Str → Str
dsn_or c (some (b ∷ dsn)) = b ∷ dsn
dsn_or c _ =
    codes "mysql://"
    ++ (c.db_user
        ++ (codes ":"
            ++ (c.db_password
                ++ (codes "@"
                    ++ (c.db_host
                        ++ (codes ":" ++ (show_ℤ c.db_port ++ (codes "/" ++ c.db_name))))))))

unfoldable pub get_db_connection_string : Config → Str
get_db_connection_string c = dsn_or c c.db_dsn
