-- ===== src/Models/DnsblHealth/Record.antt =====
-- The counters of a health record.
use postal_dnsbl_monitor.Common.{
  ℕ, ◌+◌, ◌<◌, Str, ◌≡◌, ◌↔◌, Bool, true, false, Option, none, some, [], ◌∷◌, arith,
}
use postal_dnsbl_monitor.Common.Dict.{Dict, lookup, insert}
use postal_dnsbl_monitor.Common.Exec.{ok}
use postal_dnsbl_monitor.Models.DnsblHealth.{
  DnsblHealthRecord, status, broken, record_check, get_or_zero,
}

abbrev pub total : Dict ℕ → ℕ
total [] = 0
total ((k, n) ∷ d) = n + total d

-- The invariants that the class names: the two kinds of check add up to the checks performed,
-- and the failure types to the failed checks.
pub record IsConsistent (r : DnsblHealthRecord) : Type 0 where
  pub checks : r.checks_performed ≡ r.successful_checks + r.failed_checks
  pub failures : total r.failure_types ≡ r.failed_checks

total-insert :
    (k : Str) (d : Dict ℕ) → total (insert k (get_or_zero (lookup k d) + 1) d) ≡ total d + 1
unfolding lookup insert
total-insert k [] = omega arith
total-insert k ((j, n) ∷ d) = ground (arith, total-insert k d)

-- A check that is recorded with no exception keeps the counters consistent.
pub record_check-IsConsistent :
    (success : Bool) (failure_type : Option Str) (r : DnsblHealthRecord)
    → IsConsistent r
    → (record_check success failure_type r).0 ≡ ok tt
    → IsConsistent (record_check success failure_type r).1
unfolding record_check
record_check-IsConsistent true ft r c h = ground arith
record_check-IsConsistent false none r c h = cc
record_check-IsConsistent false (some t) r c h = ground (arith, total-insert t r.failure_types)

-- A failed check with no failure type raises when the check is already counted: the counters of a
-- consistent record no longer add up.
pub record_check-not-IsConsistent :
    (r : DnsblHealthRecord) → IsConsistent r → ¬ (IsConsistent (record_check false none r).1)
unfolding record_check
record_check-not-IsConsistent r c d = absurd (omega (arith, c.checks, d.checks))

-- A zone is broken exactly when it was checked and each check failed.
pub status-broken_iff :
    (r : DnsblHealthRecord)
    → IsConsistent r
    → (status r ≡ broken) ↔ ((0 < r.checks_performed) × (r.successful_checks ≡ 0))
unfolding status
status-broken_iff r c = (λ h. ground arith, λ h. ground arith)
