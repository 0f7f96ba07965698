-- ===== src/Services/HealthTracker/Counts.antt =====
-- The tracker against the log of the checks that were recorded.
use postal_dnsbl_monitor.Common.{
  ℕ, ◌+◌, ◌<◌, Str, ◌≡◌, ◌↔◌, refl, sym, ap, ◌∙◌, Bool, true, false, not, ◌&&◌, Option, none, some,
  List, [], ◌∷◌, arith, if◌then◌else◌, All, str_eq, str_eq_iff, str_eq_comm, contains, Option-cases,
  inl, inr,
}
use postal_dnsbl_monitor.Common.Dict.{
  Dict, lookup, insert, has_key, has_key-insert, has_key_of_lookup, lookup-insert,
}
use postal_dnsbl_monitor.Common.Exec.{Exec, Result, ok, err, ◌>>◌, pure, bind-ok}
use postal_dnsbl_monitor.Models.DnsblHealth
use postal_dnsbl_monitor.Models.DnsblHealth.{DnsblHealthRecord, new_record, status, broken}
use postal_dnsbl_monitor.Services.HealthTracker.{HealthTracker, record_check, records_for, init}

-- One recorded check; `failure` is the failure type of a failed one.
pub record Check : Type 0 where
  pub zone : Str
  pub failure : Option Str

abbrev pub succeeded : Option Str → Bool
succeeded none = true
succeeded (some t) = false

unfoldable pub record_one : Check → Exec HealthTracker Unit
unfolding record_check
record_one c = record_check c.zone (succeeded c.failure) c.failure

-- The checks of a run, one after the other.
unfoldable pub record_all : List Check → Exec HealthTracker Unit
record_all [] = pure tt
record_all (c ∷ cs) = record_one c >> record_all cs

-- The number of logged checks of a zone for which `p` holds.
abbrev pub tally : (Option Str → Bool) → Str → List Check → ℕ
tally p z [] = 0
tally p z (c ∷ cs) = (if str_eq z c.zone && p c.failure then 1 else 0) + tally p z cs

abbrev pub any : Option Str → Bool
any o = true

-- The tracker knows the zones of the log.
abbrev pub Known : HealthTracker → List Check → Type 0
Known t = All (λ c. has_key c.zone t.health_records ≡ true)

-- `r` after the checks of its zone in the log `cs` counts what `cs` holds.
pub record Counts (z : Str) (cs : List Check) (r r' : DnsblHealthRecord) : Type 0 where
  pub zone : r'.zone ≡ r.zone
  pub checks : r'.checks_performed ≡ r.checks_performed + tally any z cs
  pub successes : r'.successful_checks ≡ r.successful_checks + tally succeeded z cs
  pub failures : r'.failed_checks ≡ r.failed_checks + tally (λ o. not (succeeded o)) z cs

-- The record of zone `z` after one more check.
abbrev bumped : Str → Check → DnsblHealthRecord → DnsblHealthRecord
bumped z c r =
    if str_eq z c.zone then (DnsblHealth.record_check (succeeded c.failure) c.failure r).1 else r

bumped-Counts : (z : Str) (c : Check) (r : DnsblHealthRecord) → Counts z (c ∷ []) r (bumped z c r)
unfolding DnsblHealth.record_check
bumped-Counts z c r = ground arith

pub record_one-ok :
    (c : Check) (t : HealthTracker)
    → has_key c.zone t.health_records ≡ true
    → (record_one c t).0 ≡ ok tt
unfolding record_one has_key DnsblHealth.record_check
record_one-ok c t h = ground arith

pub record_one-lookup :
    (z : Str) (c : Check) (t : HealthTracker) {r : DnsblHealthRecord}
    → has_key c.zone t.health_records ≡ true
    → lookup z t.health_records ≡ some r
    → lookup z (record_one c t).1.health_records ≡ some (bumped z c r)
unfolding record_one has_key
record_one-lookup z c t {r} h e = elim (Option-cases (lookup c.zone t.health_records)) [
  | inl absent ↦ absurd (ground arith)
  | inr (q, found) ↦ rw found (
      lookup-insert c.zone z _ t.health_records
      ∙ ground (arith, str_eq_iff z c.zone, str_eq_comm z c.zone))
]

pub record_one-has_key :
    (z : Str) (c : Check) (t : HealthTracker)
    → has_key c.zone t.health_records ≡ true
    → has_key z (record_one c t).1.health_records ≡ has_key z t.health_records
unfolding record_one
record_one-has_key z c t h = elim (Option-cases (lookup c.zone t.health_records)) [
  | inl absent ↦ rw absent refl
  | inr (q, found) ↦
      rw found (has_key-insert c.zone z _ t.health_records ∙ ground (arith, str_eq_iff c.zone z))
]

pub Known-record_one :
    (c : Check) (cs : List Check) (t : HealthTracker)
    → has_key c.zone t.health_records ≡ true
    → Known t cs
    → Known (record_one c t).1 cs
Known-record_one c [] t h k = tt
Known-record_one c (d ∷ cs) t h k =
    (record_one-has_key d.zone c t h ∙ k.0, Known-record_one c cs t h k.1)

-- Recording checks of known zones raises nothing.
pub record_all-ok : (cs : List Check) (t : HealthTracker) → Known t cs → (record_all cs t).0 ≡ ok tt
unfolding record_all
record_all-ok [] t k = refl
record_all-ok (c ∷ cs) t k =
    rw (bind-ok (record_one c) (λ _. record_all cs) t (record_one-ok c t k.0))
      (record_all-ok cs (record_one c t).1 (Known-record_one c cs t k.0 k.1))

-- The tracker keeps its zones.
pub record_all-has_key :
    (z : Str) (cs : List Check) (t : HealthTracker)
    → Known t cs
    → has_key z (record_all cs t).1.health_records ≡ has_key z t.health_records
unfolding record_all
record_all-has_key z [] t k = refl
record_all-has_key z (c ∷ cs) t k =
    rw (bind-ok (record_one c) (λ _. record_all cs) t (record_one-ok c t k.0)) (
      record_all-has_key z cs (record_one c t).1 (Known-record_one c cs t k.0 k.1)
      ∙ record_one-has_key z c t k.0)

-- After a log of checks of known zones the record of each zone counts the checks of that zone,
-- the successful and the failed ones.
pub record_all-Counts :
    (cs : List Check) (t : HealthTracker) (z : Str) {r : DnsblHealthRecord}
    → Known t cs
    → lookup z t.health_records ≡ some r
    → (r' : DnsblHealthRecord) × (lookup z (record_all cs t).1.health_records ≡ some r')
      × Counts z cs r r'
unfolding record_all
record_all-Counts [] t z {r} k h = (r, h, ground arith)
record_all-Counts (c ∷ cs) t z {r} k h =
    let e = record_one-lookup z c t k.0 h in
    let step = bumped-Counts z c r in
    let (r', found, counts) =
      record_all-Counts cs (record_one c t).1 z (Known-record_one c cs t k.0 k.1) e in
    (
      r',
      ap (λ (x : Result Unit × HealthTracker). lookup z x.1.health_records)
            (bind-ok (record_one c) (λ _. record_all cs) t (record_one-ok c t k.0))
          ∙ found,
      ground arith,
    )

-- A fresh tracker has an unused record for each of its zones, and no other.
pub lookup-records_for :
    (d : Dict DnsblHealthRecord) (zones : List Str) (z : Str)
    → lookup z (records_for d zones)
      ≡ (if contains zones z then some (new_record z) else lookup z d)
unfolding records_for contains
lookup-records_for d [] z = refl
lookup-records_for d (w ∷ zones) z =
    lookup-records_for (insert w (new_record w) d) zones z
    ∙ ground (arith, lookup-insert w z (new_record w) d, str_eq_iff w z, str_eq_comm w z)

pub lookup-init :
    (zones : List Str) {t : HealthTracker} (z : Str)
    → init zones ≡ ok t
    → contains zones z ≡ true
    → lookup z t.health_records ≡ some (new_record z)
unfolding init
lookup-init [] z e h = cc
lookup-init (w ∷ zones) {t} z e h =
    ap (λ (x : Result HealthTracker). lookup_in x) (sym e)
    ∙ lookup-records_for [] (w ∷ zones) z
    ∙ rw h refl
  where
    lookup_in : Result HealthTracker → Option DnsblHealthRecord
    lookup_in (ok u) = lookup z u.health_records
    lookup_in (err x) = none

init-Known :
    (zones : List Str) {t : HealthTracker} (cs : List Check)
    → init zones ≡ ok t
    → All (λ c. contains zones c.zone ≡ true) cs
    → Known t cs
init-Known zones [] e h = tt
init-Known zones {t} (c ∷ cs) e h = (
  has_key_of_lookup c.zone t.health_records (lookup-init zones c.zone e h.0),
  init-Known zones cs e h.1,
)

tally_split :
    (z : Str) (cs : List Check)
    → tally any z cs ≡ tally succeeded z cs + tally (λ o. not (succeeded o)) z cs
tally_split z [] = omega arith
tally_split z (c ∷ cs) = ground (arith, tally_split z cs)

-- What a zone's record says after a run.
abbrev pub Judged : Str → List Check → DnsblHealthRecord → Type 0
Judged z cs r =
    (r.zone ≡ z)
    × (r.checks_performed ≡ tally any z cs)
    × (r.checks_performed ≡ r.successful_checks + r.failed_checks)
    × ((status r ≡ broken) ↔ ((0 < tally any z cs) × (tally succeeded z cs ≡ 0)))

Counts-Judged :
    (z : Str) (cs : List Check) (r : DnsblHealthRecord)
    → Counts z cs (new_record z) r
    → Judged z cs r
unfolding status
Counts-Judged z cs r c = (
  c.zone,
  omega (arith, c.checks),
  omega (arith, c.checks, c.successes, c.failures, tally_split z cs),
  (λ h. ground (arith, tally_split z cs), λ h. ground (arith, tally_split z cs)),
)

-- Over a whole run, from the start of the tracker: recording the checks of configured zones never
-- raises, and in the end each configured zone has a record, which counts its checks and calls the
-- zone broken exactly when the zone was checked and no check of it succeeded.
pub run-Judged :
    (zones : List Str) {t : HealthTracker} (cs : List Check) (z : Str)
    → init zones ≡ ok t
    → All (λ c. contains zones c.zone ≡ true) cs
    → contains zones z ≡ true
    → ((record_all cs t).0 ≡ ok tt)
      × ((r : DnsblHealthRecord) × (lookup z (record_all cs t).1.health_records ≡ some r)
          × Judged z cs r)
run-Judged zones {t} cs z e h k =
    let known = init-Known zones cs e h in
    let (r, found, counts) = record_all-Counts cs t z known (lookup-init zones z e k) in
    (record_all-ok cs t known, (r, found, Counts-Judged z cs r counts))
