-- ===== src/Services/Logger.antt =====
-- src/services/logger.py: the entries of the log, as far as the program's state goes into them; the
-- durations are left out. The library python-json-logger is the parameter `library_fields`, what its
-- `add_fields` leaves in the record of a line.
pub mod Setup
use postal_dnsbl_monitor.Common.{ℕ, Str, codes, Bool, not, List, [], ◌∷◌, ◌++◌, select, ◌==◌}
use postal_dnsbl_monitor.Common.Dict.{Dict, insert}
use postal_dnsbl_monitor.Common.Exec.{Exec, modify}
use postal_dnsbl_monitor.Common.Json.{Json, text}
use postal_dnsbl_monitor.Models.StateTransition.{ListingState}

-- "no_action", "created_issue_recovery", "created_issue", "closed_issue" and "updated_issue"
pub data JiraAction : Type 0 where
  no_action created_issue_recovery created_issue closed_issue updated_issue : JiraAction

-- the fields of a line "IP check completed"
pub record IpCheck : Type 0 where
  pub ip : Str
  pub listed_zones : List Str
  pub unknown_zones : List Str
  pub decision : ListingState
  pub db_changes : Bool
  pub jira_action : JiraAction

-- the fields of a line "Job completed"
pub record JobSummary : Type 0 where
  pub total_ips : ℕ
  pub listed : ℕ
  pub cleaned : ℕ
  pub unchanged : ℕ
  pub jira_created : ℕ
  pub jira_updated : ℕ
  pub dns_failures : ℕ

pub data LogEntry : Type 0 where
  ip_check_completed : IpCheck → LogEntry
  job_completed : JobSummary → LogEntry
  dns_failure : Str → List Str → LogEntry

abbrev add_entry : LogEntry → Exec (List LogEntry) Unit
add_entry entry = modify λ log. log ++ (entry ∷ [])

unfoldable pub log_ip_check : IpCheck → Exec (List LogEntry) Unit
log_ip_check check = add_entry (ip_check_completed check)

unfoldable pub log_job_summary : JobSummary → Exec (List LogEntry) Unit
log_job_summary summary = add_entry (job_completed summary)

-- `unknown_percentage` is the text of the percentage
unfoldable pub log_dns_failure : Str → List Str → Exec (List LogEntry) Unit
log_dns_failure unknown_percentage failed_zones =
    add_entry (dns_failure unknown_percentage failed_zones)

-- `CustomJsonFormatter.add_fields`; `now` is the time in ISO 8601
unfoldable pub add_fields : (Dict Json → Dict Json) → Str → Str → Str → Str → Dict Json → Dict Json
add_fields library_fields now job_run_id level_name logger_name log_record =
    insert (codes "logger") (text logger_name) (
      insert (codes "level") (text level_name) (
        insert (codes "job_run_id") (text job_run_id)
          (insert (codes "timestamp") (text (now ++ codes "Z")) (library_fields log_record))))

-- A handler is told apart by its identity.
pub record RootLogger : Type 0 where
  pub level : ℕ
  pub handlers : List ℕ

unfoldable pub remove_handler : ℕ → RootLogger → RootLogger
remove_handler handler logger = record logger {
  handlers = select (λ h. not (h == handler)) logger.handlers;
}

-- the loop over a copy of the handlers
unfoldable pub remove_all : List ℕ → RootLogger → RootLogger
remove_all [] logger = logger
remove_all (h ∷ hs) logger = remove_all hs (remove_handler h logger)

-- `setup_logging`, with the identity of the new handler; `logging.INFO` is 20
unfoldable pub setup_logging : ℕ → RootLogger → RootLogger
unfolding remove_all remove_handler
setup_logging json_handler logger =
    let cleared = remove_all logger.handlers (record logger { level = 20 }) in
    record cleared { handlers = cleared.handlers ++ (json_handler ∷ []) }
