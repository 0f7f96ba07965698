-- ===== src/Services/DnsChecker.antt =====
-- src/services/dns_checker.py. dnspython is the parameter `resolve`: what a query of type A for a
-- host name gives within a lifetime in seconds, by a resolver that is made for it: the answers as
-- texts or an exception. That of the making, `no_resolver`, is outside the `try`. The name of
-- an exception's class is the parameter `class_name`, and the text of an exception `message`.
-- The worker threads each record their own check; the tracker sees their records in the order of
-- the completions, which is an argument, with the time of each, as the executor fixes none.
pub mod Results
pub mod Verdicts
pub mod Coverage
use postal_dnsbl_monitor.Common.{
  ℕ, Str, codes, Bool, true, false, Option, none, some, List, [], ◌∷◌, ◌++◌, ◌&&◌, ◌==◌,
  if◌then◌else◌, map,
}
use postal_dnsbl_monitor.Common.Exec.{
  Exec, Exn, Result, ok, err, value_error, index_error, zero_division, jira_error, mysql_error,
  dns_timeout, nxdomain, no_answer, no_nameservers, no_resolver, dns_error, other, pure, raise,
  lift, try_except, ◌>>=◌, ◌>>◌,
}
use postal_dnsbl_monitor.Models.DnsResult.{DnsResult, DnsStatus, listed, not_listed, unknown}
use postal_dnsbl_monitor.Services.HealthTracker.{HealthTracker, record_check}
use postal_dnsbl_monitor.Utils.IpUtils.{build_dnsbl_query}

abbrev pub timeout_type : Str
timeout_type = codes "timeout"

abbrev pub nxdomain_type : Str
nxdomain_type = codes "nxdomain_zone"

abbrev pub response_type : Str
response_type = codes "invalid_response_type"

abbrev pub range_type : Str
range_type = codes "invalid_response_range"

abbrev pub unknown_type : Str
unknown_type = codes "unknown_error"

unfoldable pub categorize_failure : Exn → Str
categorize_failure dns_timeout = timeout_type
categorize_failure nxdomain = nxdomain_type
categorize_failure no_answer = response_type
categorize_failure no_nameservers = unknown_type
categorize_failure _ = unknown_type

-- `s.startswith(prefix)`
unfoldable pub starts_with : Str → Str → Bool
starts_with s [] = true
starts_with [] (p ∷ prefix) = false
starts_with (c ∷ s) (p ∷ prefix) = c == p && starts_with s prefix

unfoldable pub validate_dnsbl_response : Str → Bool
unfolding starts_with
validate_dnsbl_response response = starts_with response (codes "127.")

-- The tracker, if there is one: `health_tracker` may be None.
abbrev pub Tracked : Type 0
Tracked = Option HealthTracker

-- `if health_tracker: health_tracker.record_check(...)`
unfoldable pub record_if : Str → Bool → Option Str → Exec Tracked Unit
record_if zone success failure_type none = (ok tt, none)
record_if zone success failure_type (some t) =
    let (r, t') = record_check zone success failure_type t in (r, some t')

-- the value that `check_dnsbl` returns
pub record Checked : Type 0 where
  pub zone : Str
  pub status : DnsStatus
  pub response_data : Str

-- One completed future: its zone, and when its result was taken.
pub record Completion : Type 0 where
  pub zone : Str
  pub at : ℕ

-- `answers[0]`
abbrev pub first_answer : List Str → Result Str
first_answer [] = err index_error
first_answer (a ∷ answers) = ok a

module _ (class_name : Exn → Str) where
  -- the `try` block from the validation on
  unfoldable pub judge : Str → Str → Exec Tracked Checked
  unfolding record_if validate_dnsbl_response
  judge zone response =
      if validate_dnsbl_response response
      then record_if zone true none
        >> pure (record { zone = zone; status = listed; response_data = response })
      else record_if zone false (some range_type)
        >> pure (record {
          zone = zone;
          status = unknown;
          response_data = codes "invalid_response_range:" ++ response;
        })

  -- the handler of the failures that leave the status unknown
  unfoldable pub failed_check : Str → Exn → Exec Tracked Checked
  unfolding record_if categorize_failure
  failed_check zone e =
      record_if zone false (some (categorize_failure e))
      >> pure (record { zone = zone; status = unknown; response_data = class_name e })

  -- the `except` clauses
  unfoldable pub on_exception : Str → Exn → Exec Tracked Checked
  unfolding failed_check
  on_exception zone nxdomain =
      record_if zone true none
      >> pure (record { zone = zone; status = not_listed; response_data = [] })
  on_exception zone dns_timeout = failed_check zone dns_timeout
  on_exception zone no_answer = failed_check zone no_answer
  on_exception zone no_nameservers = failed_check zone no_nameservers
  on_exception zone (dns_error name) = failed_check zone (dns_error name)
  on_exception zone no_resolver = raise no_resolver
  on_exception zone (value_error e) = raise (value_error e)
  on_exception zone index_error = raise index_error
  on_exception zone zero_division = raise zero_division
  on_exception zone (jira_error e) = raise (jira_error e)
  on_exception zone (mysql_error e) = raise (mysql_error e)
  on_exception zone (other e) = raise (other e)

  module _ (resolve : Str → ℕ → Result (List Str)) where
    unfoldable pub check_dnsbl : Str → Str → ℕ → Exec Tracked Checked
    unfolding judge on_exception
    check_dnsbl ip zone timeout = do
      query_hostname ← lift (build_dnsbl_query ip zone)
      try_except
          (do
            answers ← lift (resolve query_hostname timeout)
            response ← lift (first_answer answers)
            judge zone response)
          (on_exception zone)

    -- the body of the loop over the completed futures
    module _ (message : Exn → Str) where
      unfoldable pub unexpected : Str → Completion → Exn → Exec Tracked DnsResult
      unfolding record_if
      unexpected ip c e =
          record_if c.zone false (some unknown_type)
          >> pure (record {
            ip = ip;
            zone = c.zone;
            status = unknown;
            response_data = codes "Exception: " ++ message e;
            timestamp = c.at;
          })

      unfoldable pub collect : Str → ℕ → Completion → Exec Tracked DnsResult
      unfolding check_dnsbl unexpected
      collect ip timeout c =
          try_except
            (do
              checked ← check_dnsbl ip c.zone timeout
              pure (record {
                ip = ip;
                zone = checked.zone;
                status = checked.status;
                response_data = checked.response_data;
                timestamp = c.at;
              }))
            (unexpected ip c)

      -- the workers of the completions: they run, and record, also where the loop has ended with an
      -- exception, as the executor waits for them
      unfoldable pub run_workers : Str → ℕ → List Completion → Tracked → Tracked
      unfolding check_dnsbl
      run_workers ip timeout [] t = t
      run_workers ip timeout (c ∷ cs) t =
          run_workers ip timeout cs (check_dnsbl ip c.zone timeout t).1

      -- one round of the loop; `rest` is the loop from there on, and `waited` what the workers of
      -- the rest do
      abbrev pub gather :
          Exec Tracked (List DnsResult)
          → (Tracked → Tracked)
          → Result DnsResult
          → Exec Tracked (List DnsResult)
      gather rest waited (ok result) t = (do results ← rest; pure (result ∷ results)) t
      gather rest waited (err e) t = (err e, waited t)

      -- `check_ip_concurrent`, for the completions in their order
      unfoldable pub check_ip_concurrent : Str → ℕ → List Completion → Exec Tracked (List DnsResult)
      unfolding collect run_workers
      check_ip_concurrent ip timeout [] t = (ok [], t)
      check_ip_concurrent ip timeout (c ∷ cs) t =
          let (result, u) = collect ip timeout c t in
          gather (check_ip_concurrent ip timeout cs) (run_workers ip timeout cs) result u
