-- ===== src/Services/DnsChecker/Results.antt =====
-- What a check of an address gives, and what the tracker gets to know of it.
use postal_dnsbl_monitor.Common.{
  ℕ, Str, ◌≡◌, refl, sym, ap, ◌∙◌, true, Option, none, some, List, [], ◌∷◌, map, All, inl, inr,
  Bool-cases,
}
use postal_dnsbl_monitor.Common.Dict.{has_key}
use postal_dnsbl_monitor.Common.Exec.{
  Exec, Exn, Result, ok, err, value_error, index_error, zero_division, jira_error, mysql_error,
  dns_timeout, nxdomain, no_answer, no_nameservers, no_resolver, dns_error, other, try_except, lift,
  ◌>>=◌, Result-cases, bind-ok,
}
use postal_dnsbl_monitor.Models.DnsResult.{DnsResult, unknown}
use postal_dnsbl_monitor.Services.HealthTracker.{HealthTracker}
use postal_dnsbl_monitor.Services.HealthTracker.Counts.{
  Check, succeeded, record_one, record_all, record_one-ok, record_one-has_key,
}
use postal_dnsbl_monitor.Utils.IpUtils.{build_dnsbl_query}
use postal_dnsbl_monitor.Services.DnsChecker.{
  Tracked, Completion, Checked, record_if, first_answer, validate_dnsbl_response,
  categorize_failure, judge, failed_check, on_exception, unexpected, collect, check_ip_concurrent,
  range_type, unknown_type,
}
use postal_dnsbl_monitor.Services.DnsChecker.Verdicts.{
  Verdict, no_verdict, dns_failure, verdict_of, result_of, check_of,
}

module _ (class_name : Exn → Str) (resolve : Str → ℕ → Result (List Str))
    (message : Exn → Str) where
  -- The tracker knows the zone, or there is none.
  abbrev KnownZone : Str → Tracked → Type 0
  KnownZone zone none = Unit
  KnownZone zone (some t) = has_key zone t.health_records ≡ true

  abbrev recorded : Check → Tracked → Tracked
  recorded c none = none
  recorded c (some t) = some (record_one c t).1

  record_if-recorded :
      (zone : Str) (failure : Option Str) (t : Tracked)
      → KnownZone zone t
      → record_if zone (succeeded failure) failure t
        ≡ (ok tt, recorded (record { zone = zone; failure = failure }) t)
  unfolding record_if record_one
  record_if-recorded zone failure none k = refl
  record_if-recorded zone failure (some t) k =
      let c : Check = record { zone = zone; failure = failure } in
      ap (λ (r : Result Unit). (r, some (record_one c t).1)) (record_one-ok c t k)

  -- What `check_dnsbl` returns where its verdict is one of its own.
  abbrev checked_as : Str → Verdict → Checked
  checked_as zone v = record { zone = zone; status = v.status; response_data = v.response_data }

  abbrev check_as : Str → Verdict → Check
  check_as zone v = record { zone = zone; failure = v.failure }

  judge-verdict :
      (zone a : Str) (t : Tracked)
      → KnownZone zone t
      → judge class_name zone a t ≡ (
        ok (checked_as zone (verdict_of class_name resolve message (ok a))),
        recorded (check_as zone (verdict_of class_name resolve message (ok a))) t,
      )
  unfolding judge
  judge-verdict zone a t k = elim (Bool-cases (validate_dnsbl_response a)) [
    | inl valid ↦ rw (valid, record_if-recorded zone none t k) refl
    | inr invalid ↦ rw (invalid, record_if-recorded zone (some range_type) t k) refl
  ]

  failed_check-verdict :
      (zone : Str) (e : Exn) (t : Tracked)
      → KnownZone zone t
      → failed_check class_name zone e t ≡ (
        ok (checked_as zone (dns_failure class_name resolve message e)),
        recorded (check_as zone (dns_failure class_name resolve message e)) t,
      )
  unfolding failed_check
  failed_check-verdict zone e t k =
      rw (record_if-recorded zone (some (categorize_failure e)) t k) refl

  -- One completion, from an exception that `check_dnsbl` lets through.
  unexpected-verdict :
      (ip : Str) (c : Completion) (e : Exn) (t : Tracked)
      → KnownZone c.zone t
      → unexpected class_name resolve message ip c e t ≡ (
        ok (record {
          ip = ip;
          zone = c.zone;
          status = unknown;
          response_data = (no_verdict class_name resolve message e).response_data;
          timestamp = c.at;
        }),
        recorded (check_as c.zone (no_verdict class_name resolve message e)) t,
      )
  unfolding unexpected
  unexpected-verdict ip c e t k = rw (record_if-recorded c.zone (some unknown_type) t k) refl

  -- The result of a completion with the verdict `v`, and the tracker after it.
  abbrev outcome : Str → Completion → Verdict → Tracked → Result DnsResult × Tracked
  outcome ip c v t = (
    ok (record {
      ip = ip;
      zone = c.zone;
      status = v.status;
      response_data = v.response_data;
      timestamp = c.at;
    }),
    recorded (check_as c.zone v) t,
  )

  abbrev to_result : Str → Completion → Checked → Exec Tracked DnsResult
  to_result ip c checked t = (
    ok (record {
      ip = ip;
      zone = checked.zone;
      status = checked.status;
      response_data = checked.response_data;
      timestamp = c.at;
    }),
    t,
  )

  on_exception-verdict :
      (ip : Str) (c : Completion) (e : Exn) (t : Tracked)
      → KnownZone c.zone t
      → try_except
          (on_exception class_name c.zone e >>= to_result ip c)
          (unexpected class_name resolve message ip c)
          t
        ≡ outcome ip c (verdict_of class_name resolve message (err e)) t
  unfolding on_exception
  on_exception-verdict ip c nxdomain t k = rw (record_if-recorded c.zone none t k) refl
  on_exception-verdict ip c dns_timeout t k = rw (failed_check-verdict c.zone dns_timeout t k) refl
  on_exception-verdict ip c no_answer t k = rw (failed_check-verdict c.zone no_answer t k) refl
  on_exception-verdict ip c no_nameservers t k =
      rw (failed_check-verdict c.zone no_nameservers t k) refl
  on_exception-verdict ip c (dns_error name) t k =
      rw (failed_check-verdict c.zone (dns_error name) t k) refl
  on_exception-verdict ip c no_resolver t k = unexpected-verdict ip c no_resolver t k
  on_exception-verdict ip c (value_error s) t k = unexpected-verdict ip c (value_error s) t k
  on_exception-verdict ip c index_error t k = unexpected-verdict ip c index_error t k
  on_exception-verdict ip c zero_division t k = unexpected-verdict ip c zero_division t k
  on_exception-verdict ip c (jira_error s) t k = unexpected-verdict ip c (jira_error s) t k
  on_exception-verdict ip c (mysql_error s) t k = unexpected-verdict ip c (mysql_error s) t k
  on_exception-verdict ip c (other s) t k = unexpected-verdict ip c (other s) t k

  answers-verdict :
      (ip : Str) (c : Completion) (answers : List Str) (t : Tracked)
      → KnownZone c.zone t
      → try_except
          (try_except
              (lift (first_answer answers) >>= judge class_name c.zone)
              (on_exception class_name c.zone)
            >>= to_result ip c)
          (unexpected class_name resolve message ip c)
          t
        ≡ outcome ip c (verdict_of class_name resolve message (first_answer answers)) t
  answers-verdict ip c [] t k = on_exception-verdict ip c index_error t k
  answers-verdict ip c (a ∷ answers) t k = rw (judge-verdict c.zone a t k) refl

  -- One completed check: its result carries the verdict, and the tracker has recorded it.
  collect-verdict :
      (ip : Str) (timeout : ℕ) (c : Completion) (t : Tracked)
      → KnownZone c.zone t
      → collect class_name resolve message ip timeout c t ≡ (
        ok (result_of class_name resolve message ip timeout c),
        recorded (check_of class_name resolve message ip timeout c) t,
      )
  unfolding collect
  collect-verdict ip timeout c t k = elim (Result-cases (build_dnsbl_query ip c.zone)) [
    | inr (e, raised) ↦ rw raised (unexpected-verdict ip c e t k)
    | inl (query, built) ↦ elim (Result-cases (resolve query timeout)) [
      | inr (e, failed) ↦ rw (built, failed) (on_exception-verdict ip c e t k)
      | inl (answers, answered) ↦ rw (built, answered) (answers-verdict ip c answers t k)
    ]
  ]

  -- The tracker knows the zones of the completions, or there is none.
  abbrev pub KnownZones : List Completion → Tracked → Type 0
  KnownZones cs none = Unit
  KnownZones cs (some t) = All (λ c. has_key c.zone t.health_records ≡ true) cs

  abbrev pub tracked_after : Str → ℕ → List Completion → Tracked → Tracked
  tracked_after ip timeout cs none = none
  tracked_after ip timeout cs (some t) =
      some (record_all (map (check_of class_name resolve message ip timeout) cs) t).1

  KnownZones-recorded :
      (d : Check) (cs : List Completion) (t : HealthTracker)
      → has_key d.zone t.health_records ≡ true
      → KnownZones cs (some t)
      → KnownZones cs (some (record_one d t).1)
  KnownZones-recorded d [] t h k = tt
  KnownZones-recorded d (c ∷ cs) t h k =
      (record_one-has_key c.zone d t h ∙ k.0, KnownZones-recorded d cs t h k.1)

  -- A check of an address whose zones the tracker knows, or without a tracker, never raises. It
  -- has one result for each completion, in their order, with the verdict on its zone; the tracker
  -- has recorded the check of each zone, as failed exactly for those with a failure type.
  pub check_ip_concurrent-verdicts :
      (ip : Str) (timeout : ℕ) (cs : List Completion) (t : Tracked)
      → KnownZones cs t
      → check_ip_concurrent class_name resolve message ip timeout cs t ≡ (
        ok (map (result_of class_name resolve message ip timeout) cs),
        tracked_after ip timeout cs t,
      )
  unfolding check_ip_concurrent record_all
  check_ip_concurrent-verdicts ip timeout [] none k = refl
  check_ip_concurrent-verdicts ip timeout [] (some t) k = refl
  check_ip_concurrent-verdicts ip timeout (c ∷ cs) none k =
      rw (collect-verdict ip timeout c none tt, check_ip_concurrent-verdicts ip timeout cs none tt)
        refl
  check_ip_concurrent-verdicts ip timeout (c ∷ cs) (some t) k =
      let d = check_of class_name resolve message ip timeout c in
      rw
        (
          collect-verdict ip timeout c (some t) k.0,
          check_ip_concurrent-verdicts ip timeout cs (some (record_one d t).1)
              (KnownZones-recorded d cs t k.0 k.1),
        )
        (ap
          (λ (x : Result Unit × HealthTracker).
            (ok (map (result_of class_name resolve message ip timeout) (c ∷ cs)), some x.1))
          (sym (
            bind-ok (record_one d)
              (λ _. record_all (map (check_of class_name resolve message ip timeout) cs)) t
              (record_one-ok d t k.0))))
