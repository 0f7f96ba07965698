-- ===== src/Services/DnsChecker/Coverage.antt =====
-- The zones that a tracker knows, and the checks that stay within them.
use postal_dnsbl_monitor.Common.{
  ℕ, ◌<◌, Str, ◌≡◌, ◌≢◌, ◌∙◌, refl, true, none, some, List, [], ◌∷◌, All, map, arith, contains,
  str_eq_iff, length,
}
use postal_dnsbl_monitor.Common.Dict.{Dict, has_key, lookup, values, has_key_of_lookup}
use postal_dnsbl_monitor.Common.Exec.{Exn, Result, ok}
use postal_dnsbl_monitor.Models.DnsblHealth.{DnsblHealthRecord}
use postal_dnsbl_monitor.Services.DnsChecker.{Tracked, Completion}
use postal_dnsbl_monitor.Services.DnsChecker.Results.{KnownZones, tracked_after}
use postal_dnsbl_monitor.Services.DnsChecker.Verdicts.{check_of}
use postal_dnsbl_monitor.Services.HealthTracker.{HealthTracker, init}
use postal_dnsbl_monitor.Services.HealthTracker.Counts.{Known, record_all-has_key, lookup-init}

module _ (zones : List Str) where
  -- The zones of the completions are among the given ones.
  abbrev pub Within : List Completion → Type 0
  Within = All (λ c. contains zones c.zone ≡ true)

  -- There is a tracker, and it knows the zones.
  abbrev pub Covers : Tracked → Type 0
  Covers none = ⊥
  Covers (some t) = (z : Str) → contains zones z ≡ true → has_key z t.health_records ≡ true

  module _ (class_name : Exn → Str) (resolve : Str → ℕ → Result (List Str))
      (message : Exn → Str) where
    pub Covers-KnownZones :
        (cs : List Completion) (t : Tracked)
        → Covers t
        → Within cs
        → KnownZones class_name resolve message cs t
    Covers-KnownZones cs none h k = absurd h
    Covers-KnownZones [] (some t) h k = tt
    Covers-KnownZones (c ∷ cs) (some t) h k = (h c.zone k.0, Covers-KnownZones cs (some t) h k.1)

    checks-Known :
        (ip : Str) (timeout : ℕ) (cs : List Completion) (t : HealthTracker)
        → Covers (some t)
        → Within cs
        → Known t (map (check_of class_name resolve message ip timeout) cs)
    checks-Known ip timeout [] t h k = tt
    checks-Known ip timeout (c ∷ cs) t h k = (h c.zone k.0, checks-Known ip timeout cs t h k.1)

    pub Covers-tracked_after :
        (ip : Str) (timeout : ℕ) (cs : List Completion) (t : Tracked)
        → Covers t
        → Within cs
        → Covers (tracked_after class_name resolve message ip timeout cs t)
    Covers-tracked_after ip timeout cs none h k = absurd h
    Covers-tracked_after ip timeout cs (some t) h k = λ z e.
        record_all-has_key z (map (check_of class_name resolve message ip timeout) cs) t
          (checks-Known ip timeout cs t h k)
        ∙ h z e

  pub Covers-init : {t : HealthTracker} → init zones ≡ ok t → Covers (some t)
  Covers-init {t} e z h = has_key_of_lookup z t.health_records (lookup-init zones z e h)

pub init-made : (zones : List Str) → zones ≢ [] → (t : HealthTracker) × (init zones ≡ ok t)
unfolding init
init-made [] some_zone = absurd (some_zone refl)
init-made (z ∷ zones) some_zone = (_, refl)

size_pos : (z : Str) (d : Dict DnsblHealthRecord) → has_key z d ≡ true → 0 < length (values d)
unfolding has_key lookup values
size_pos z [] h = cc
size_pos z ((j, v) ∷ d) h = ground arith

pub Covers-size :
    (zones : List Str) (t : HealthTracker)
    → zones ≢ []
    → Covers zones (some t)
    → 0 < length (values t.health_records)
unfolding contains
Covers-size [] t some_zone h = absurd (some_zone refl)
Covers-size (z ∷ zones) t some_zone h =
    size_pos z t.health_records (h z (ground (arith, str_eq_iff z z)))
