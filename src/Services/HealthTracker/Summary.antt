-- ===== src/Services/HealthTracker/Summary.antt =====
-- The summary of a run.
use postal_dnsbl_monitor.Common.{
  ℕ, ◌*◌, ◌≤◌, ◌<◌, Str, ◌≡◌, ◌↔◌, refl, ap, ◌∙◌, true, false, Option, none, some, List, [], ◌∷◌,
  arith, length, Option-cases, inl, inr,
}
use postal_dnsbl_monitor.Common.Dict.{Dict, lookup, insert, values, has_key, has_key_of_lookup}
use postal_dnsbl_monitor.Common.Exec.{Result, ok, bind-ok, bind-err, Result-cases}
use postal_dnsbl_monitor.Models.DnsblHealth.{
  DnsblHealthRecord, NetworkConnectivityResult, HealthSummary, new_record,
}
use postal_dnsbl_monitor.Services.HealthTracker.{
  HealthTracker, init, records_for, count_broken, network_issue, truthy, get_summary, duration,
}
use postal_dnsbl_monitor.Services.HealthTracker.Counts.{Check, record_one, record_all}

count_broken-le-length : (rs : List DnsblHealthRecord) → count_broken rs ≤ length rs
unfolding count_broken
count_broken-le-length [] = omega arith
count_broken-le-length (r ∷ rs) = ground (arith, count_broken-le-length rs)

length-insert :
    (k : Str) (v : DnsblHealthRecord) (d : Dict DnsblHealthRecord)
    → length (values d) ≤ length (values (insert k v d))
unfolding insert values
length-insert k v [] = omega arith
length-insert k v ((j, w) ∷ d) = ground (arith, length-insert k v d)

length-insert_pos :
    (k : Str) (v : DnsblHealthRecord) (d : Dict DnsblHealthRecord)
    → 0 < length (values (insert k v d))
unfolding insert values
length-insert_pos k v [] = omega arith
length-insert_pos k v ((j, w) ∷ d) = ground arith

length-insert_old :
    (k : Str) (v : DnsblHealthRecord) (d : Dict DnsblHealthRecord)
    → has_key k d ≡ true
    → length (values (insert k v d)) ≡ length (values d)
unfolding insert values has_key lookup
length-insert_old k v [] h = cc
length-insert_old k v ((j, w) ∷ d) h = ground (arith, length-insert_old k v d)

length-records_for :
    (d : Dict DnsblHealthRecord) (zones : List Str)
    → length (values d) ≤ length (values (records_for d zones))
unfolding records_for
length-records_for d [] = omega arith
length-records_for d (z ∷ zones) =
    omega (
      arith,
      length-insert z (new_record z) d,
      length-records_for (insert z (new_record z) d) zones,
    )

size : HealthTracker → ℕ
size t = length (values t.health_records)

init-size : (zones : List Str) {t : HealthTracker} → init zones ≡ ok t → 0 < size t
unfolding init size
init-size [] e = cc
init-size (z ∷ zones) e = ground (
  arith,
  length-insert_pos z (new_record z) [],
  length-records_for (insert z (new_record z) []) zones,
)

-- Whatever is recorded, the tracker keeps its zones.
record_one-size : (c : Check) (t : HealthTracker) → size (record_one c t).1 ≡ size t
unfolding record_one size has_key
record_one-size c t = elim (Option-cases (lookup c.zone t.health_records)) [
  | inl absent ↦ rw absent refl
  | inr (q, found) ↦ rw found (
      length-insert_old c.zone _ t.health_records (has_key_of_lookup c.zone t.health_records found))
]

record_all-size : (cs : List Check) (t : HealthTracker) → size (record_all cs t).1 ≡ size t
unfolding record_all
record_all-size [] t = refl
record_all-size (c ∷ cs) t = elim (Result-cases (record_one c t).0) [
  | inl (a, e) ↦
      ap (λ (x : Result Unit × HealthTracker). size x.1)
        (bind-ok (record_one c) (λ _. record_all cs) t e)
      ∙ record_all-size cs (record_one c t).1
      ∙ record_one-size c t
  | inr (x, e) ↦
      ap (λ (x : Result Unit × HealthTracker). size x.1)
        (bind-err (record_one c) (λ _. record_all cs) t e)
      ∙ record_one-size c t
]

-- The supplemental check ran, and reached neither resolver.
abbrev pub Unreachable : Option NetworkConnectivityResult → Type 0
Unreachable none = ⊥
Unreachable (some c) =
    (c.check_enabled ≡ true)
    × (truthy c.cloudflare_reachable ≡ false)
    × (truthy c.google_reachable ≡ false)

network_issue_iff :
    (b n : ℕ) (connectivity : Option NetworkConnectivityResult)
    → (network_issue b n connectivity ≡ true) ↔ ((n ≤ 2 * b) × Unreachable connectivity)
unfolding network_issue
network_issue_iff b n none = (λ h. absurd (ground arith), λ h. absurd h.1)
network_issue_iff b n (some c) = (λ h. ground arith, λ h. ground arith)

-- A tracker that was made from a list of zones has a summary, whatever was recorded and even if a
-- record raised; the summary counts the tracker's zones, at most all of them are broken, and a
-- network issue is reported exactly when at least half of the zones are broken and the
-- supplemental check ran and reached neither resolver.
pub get_summary-run :
    (zones : List Str) {t : HealthTracker} (cs : List Check) (now timestamp : ℕ)
    (connectivity : Option NetworkConnectivityResult)
    → init zones ≡ ok t
    → (s : HealthSummary) × (get_summary now timestamp (record_all cs t).1 connectivity ≡ ok s)
      × (s.total_dnsbls ≡ length (values t.health_records))
      × (s.broken_dnsbls ≡ count_broken (values (record_all cs t).1.health_records))
      × (s.broken_dnsbls ≤ s.total_dnsbls)
      × ((s.network_issue_detected ≡ true)
          ↔ ((s.total_dnsbls ≤ 2 * s.broken_dnsbls) × Unreachable connectivity))
unfolding get_summary size
get_summary-run zones {t} cs now timestamp connectivity e =
    let records = values (record_all cs t).1.health_records in
    let same = record_all-size cs t in
    (
      record {
        timestamp = timestamp;
        total_dnsbls = length records;
        broken_dnsbls = count_broken records;
        network_issue_detected = network_issue (count_broken records) (length records) connectivity;
        total_ip_checks = (record_all cs t).1.total_ip_checks;
        execution_duration_ms = duration now (record_all cs t).1.start_time;
        dnsbl_health = records;
        network_connectivity = connectivity;
      },
      ground (arith, same, init-size zones e),
      same,
      refl,
      count_broken-le-length records,
      network_issue_iff (count_broken records) (length records) connectivity,
    )
