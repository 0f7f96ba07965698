-- ===== src/Services/DnsChecker/Verdicts.antt =====
-- The verdict of a check, from the answers of DNS alone.
use postal_dnsbl_monitor.Common.{ℕ, Str, codes, Option, none, some, List, [], ◌++◌, if◌then◌else◌}
use postal_dnsbl_monitor.Common.Exec.{
  Exn, Result, ok, err, dns_timeout, nxdomain, no_answer, no_nameservers, dns_error,
}
use postal_dnsbl_monitor.Models.DnsResult.{DnsResult, DnsStatus, listed, not_listed, unknown}
use postal_dnsbl_monitor.Services.HealthTracker.Counts.{Check}
use postal_dnsbl_monitor.Utils.IpUtils.{build_dnsbl_query}
use postal_dnsbl_monitor.Services.DnsChecker.{
  Completion, first_answer, validate_dnsbl_response, categorize_failure, range_type, unknown_type,
}

-- What a check finds out: the status, the data, and the failure type if the check failed.
pub record Verdict : Type 0 where
  pub status : DnsStatus
  pub response_data : Str
  pub failure : Option Str

module _ (class_name : Exn → Str) (resolve : Str → ℕ → Result (List Str))
    (message : Exn → Str) where
  abbrev pub no_verdict : Exn → Verdict
  no_verdict e = record {
    status = unknown;
    response_data = codes "Exception: " ++ message e;
    failure = some unknown_type;
  }

  abbrev pub dns_failure : Exn → Verdict
  dns_failure e = record {
    status = unknown;
    response_data = class_name e;
    failure = some (categorize_failure e);
  }

  -- The first answer lists the address if it lies in 127.0.0.0/8; NXDOMAIN clears it; with any
  -- other answer or exception the check has failed.
  abbrev pub verdict_of : Result Str → Verdict
  verdict_of (ok a) =
      if validate_dnsbl_response a
      then record { status = listed; response_data = a; failure = none }
      else record {
        status = unknown;
        response_data = codes "invalid_response_range:" ++ a;
        failure = some range_type;
      }
  verdict_of (err nxdomain) = record { status = not_listed; response_data = []; failure = none }
  verdict_of (err dns_timeout) = dns_failure dns_timeout
  verdict_of (err no_answer) = dns_failure no_answer
  verdict_of (err no_nameservers) = dns_failure no_nameservers
  verdict_of (err (dns_error name)) = dns_failure (dns_error name)
  verdict_of (err e) = no_verdict e

  abbrev first_of_answers : Result (List Str) → Result Str
  first_of_answers (ok answers) = first_answer answers
  first_of_answers (err e) = err e

  abbrev verdict_at : ℕ → Result Str → Verdict
  verdict_at timeout (ok query) = verdict_of (first_of_answers (resolve query timeout))
  verdict_at timeout (err e) = no_verdict e

  -- The verdict on an address at a zone, from the answers to its query alone.
  abbrev pub verdict : Str → ℕ → Str → Verdict
  verdict ip timeout zone = verdict_at timeout (build_dnsbl_query ip zone)

  abbrev pub result_of : Str → ℕ → Completion → DnsResult
  result_of ip timeout c =
      let v = verdict ip timeout c.zone in
      record {
        ip = ip;
        zone = c.zone;
        status = v.status;
        response_data = v.response_data;
        timestamp = c.at;
      }

  abbrev pub check_of : Str → ℕ → Completion → Check
  check_of ip timeout c = record { zone = c.zone; failure = (verdict ip timeout c.zone).failure }
