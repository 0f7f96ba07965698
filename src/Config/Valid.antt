-- ===== src/Config/Valid.antt =====
-- What a configuration that was loaded promises.
use postal_dnsbl_monitor.Common.{
  Str, codes, ◌≡◌, ◌≢◌, refl, Bool, true, false, not, List, [], ◌∷◌, arith, All,
}
use postal_dnsbl_monitor.Common.Int.{leb_ℤ}
use postal_dnsbl_monitor.Common.Ensures.{Ensures, Ensures-continue, Ensures-bind}
use postal_dnsbl_monitor.Common.Exec.{Exec, continue}
use postal_dnsbl_monitor.Common.Split.{has, split, strip}
use postal_dnsbl_monitor.Common.Split.Laws.{Lacks, split-Lacks, has-strip}
use postal_dnsbl_monitor.Models.IpRecord.{comma, non_empty}
use postal_dnsbl_monitor.Services.Database.Zones.{Proper}
use postal_dnsbl_monitor.Services.DnsChecker.{starts_with}
use postal_dnsbl_monitor.Config.{
  Config, Env, check, between, items, stripped, add_item, from_env, db_settings, DnsblSettings,
  PrioritySettings, JiraSettings, dnsbl_settings, priority_settings, jira_settings,
  get_required_env, int_env, priorities_message,
}

-- The zones can be joined and split again, and there is one; the timeout, the concurrency and the
-- priorities are in their ranges, and a
-- listed address has a lower priority than one that is restored without a backup.
pub record IsValid (c : Config) : Type 0 where
  pub zones : All Proper c.dnsbl_zones
  pub some_zone : c.dnsbl_zones ≢ []
  pub timeout : between 1 60 c.dns_timeout ≡ true
  pub concurrency : between 1 100 c.dns_concurrency ≡ true
  pub listed : between 0 100 c.listed_priority ≡ true
  pub fallback : between 0 100 c.clean_fallback_priority ≡ true
  pub lower : leb_ℤ c.clean_fallback_priority c.listed_priority ≡ false
  pub https : starts_with c.jira_server (codes "https://") ≡ true

Proper-add_item :
    (s : Str) (zs : List Str) → has comma s ≡ false → All Proper zs → All Proper (add_item s zs)
Proper-add_item [] zs h k = k
Proper-add_item (c ∷ s) zs h k = (((λ e. cc), h), k)

Proper-stripped : (ps : List Str) → Lacks comma ps → All Proper (stripped ps)
unfolding stripped
Proper-stripped [] h = tt
Proper-stripped (p ∷ ps) h =
    Proper-add_item (strip p) (stripped ps) (has-strip comma p h.0) (Proper-stripped ps h.1)

Proper-items : (text : Str) → All Proper (items text)
unfolding items
Proper-items text = Proper-stripped (split comma text) (split-Lacks comma text)

-- What follows a check may use that it held.
Ensures-check :
    {B : Type 0} (P : B → Type 0) (b : Bool) (message : Str) (k : Unit → Exec Env B) (s : Env)
    → (b ≡ true → Ensures P (k tt s))
    → Ensures P (continue (check b message s).0 k (check b message s).1)
Ensures-check P true message k s h = h refl
Ensures-check P false message k s h = tt

Ensures-step :
    {A B : Type 0} (P : B → Type 0) (m : Exec Env A) (k : A → Exec Env B) (s : Env)
    → ((a : A) (s : Env) → Ensures P (k a s))
    → Ensures P (continue (m s).0 k (m s).1)
Ensures-step P m k s h = Ensures-continue P (m s).0 k (m s).1 h

some_item : (zs : List Str) → non_empty zs ≡ true → zs ≢ []
some_item [] h = cc
some_item (z ∷ zs) h = λ e. cc

-- What each part of the configuration promises.
abbrev DnsblValid : DnsblSettings → Type 0
DnsblValid d =
    All Proper d.zones
    × (d.zones ≢ [])
    × (between 1 60 d.timeout ≡ true)
    × (between 1 100 d.concurrency ≡ true)

abbrev PrioritiesValid : PrioritySettings → Type 0
PrioritiesValid p =
    (between 0 100 p.listed ≡ true)
    × (between 0 100 p.fallback ≡ true)
    × (not (leb_ℤ p.fallback p.listed) ≡ true)

abbrev JiraValid : JiraSettings → Type 0
JiraValid j = starts_with j.server (codes "https://") ≡ true

dnsbl_settings-DnsblValid : (env : Env) → Ensures DnsblValid (dnsbl_settings env)
unfolding dnsbl_settings
dnsbl_settings-DnsblValid env =
    Ensures-step DnsblValid (get_required_env (codes "DNSBL_ZONES")) _ env (λ zones_str e1.
      Ensures-check DnsblValid (non_empty (items zones_str)) _ _ e1 (λ some_zone.
        Ensures-step DnsblValid (int_env (codes "DNS_TIMEOUT") (codes "5")) _ e1 (λ timeout e2.
          Ensures-check DnsblValid (between 1 60 timeout) _ _ e2 (λ timeout_fits.
            Ensures-step DnsblValid (int_env (codes "DNS_CONCURRENCY") (codes "10")) _ e2
              (λ concurrency e3.
                Ensures-check DnsblValid (between 1 100 concurrency) _ _ e3 (λ concurrency_fits. (
                  Proper-items zones_str,
                  some_item (items zones_str) some_zone,
                  timeout_fits,
                  concurrency_fits,
                )))))))

priority_settings-PrioritiesValid : (env : Env) → Ensures PrioritiesValid (priority_settings env)
unfolding priority_settings
priority_settings-PrioritiesValid env =
    Ensures-step PrioritiesValid (int_env (codes "LISTED_PRIORITY") (codes "0")) _ env (λ listed e1.
      Ensures-step PrioritiesValid (int_env (codes "CLEAN_FALLBACK_PRIORITY") (codes "50")) _ e1
        (λ fallback e2. Ensures-check PrioritiesValid (between 0 100 listed) _ _ e2 (λ listed_fits.
          Ensures-check PrioritiesValid (between 0 100 fallback) _ _ e2 (λ fallback_fits.
            Ensures-check PrioritiesValid (not (leb_ℤ fallback listed))
              (priorities_message listed fallback) _ e2
              (λ lower. (listed_fits, fallback_fits, lower))))))

jira_settings-JiraValid : (env : Env) → Ensures JiraValid (jira_settings env)
unfolding jira_settings
jira_settings-JiraValid env =
    Ensures-step JiraValid (get_required_env (codes "JIRA_SERVER")) _ env (λ server e1.
      Ensures-check JiraValid (starts_with server (codes "https://")) _ _ e1 (λ https.
        Ensures-step JiraValid (get_required_env (codes "JIRA_USER")) _ e1 (λ user e2.
          Ensures-step JiraValid (get_required_env (codes "JIRA_API_TOKEN")) _ e2 (λ token e3.
            Ensures-step JiraValid (get_required_env (codes "JIRA_PROJECT")) _ e3 (λ project e4.
              Ensures-step JiraValid (get_required_env (codes "JIRA_ISSUE_TYPE")) _ e4
                (λ issue_type e5.
                  Ensures-step JiraValid (get_required_env (codes "JIRA_DNS_FAILURE_ISSUE_TYPE")) _
                    e5 (λ failure_type e6. https)))))))

loaded-IsValid :
    (c : Config)
    → All Proper c.dnsbl_zones
      × (c.dnsbl_zones ≢ [])
      × (between 1 60 c.dns_timeout ≡ true)
      × (between 1 100 c.dns_concurrency ≡ true)
    → (between 0 100 c.listed_priority ≡ true)
      × (between 0 100 c.clean_fallback_priority ≡ true)
      × (not (leb_ℤ c.clean_fallback_priority c.listed_priority) ≡ true)
    → starts_with c.jira_server (codes "https://") ≡ true
    → IsValid c
loaded-IsValid c (zones, some_zone, timeout, concurrency) (listed, fallback, lower) https = record {
  zones = zones;
  some_zone = some_zone;
  timeout = timeout;
  concurrency = concurrency;
  listed = listed;
  fallback = fallback;
  lower = ground arith;
  https = https;
}

-- A configuration that is loaded from an environment has at least one zone, none of them empty or with
-- a comma, its timeout, its concurrency and its two priorities in their ranges, a listed priority
-- below the fallback, and an https server; of its other fields nothing is said.
pub from_env-IsValid : (env : Env) → Ensures IsValid (from_env env)
unfolding from_env
from_env-IsValid env = Ensures-step IsValid (db_settings (env (codes "DB_DSN"))) _ env (λ db e1.
    Ensures-bind DnsblValid IsValid (dnsbl_settings e1).0 _ _ (dnsbl_settings-DnsblValid e1)
      (λ dnsbl e2 d.
        Ensures-bind PrioritiesValid IsValid (priority_settings e2).0 _ _
          (priority_settings-PrioritiesValid e2)
          (λ priorities e3 p.
            Ensures-bind JiraValid IsValid (jira_settings e3).0 _ _ (jira_settings-JiraValid e3)
              (λ jira e4 j. loaded-IsValid _ d p j))))
