-- ===== src/Examples/Loading.antt =====
-- The loading of a configuration.
use postal_dnsbl_monitor.Common.{
  ◌++◌, ℕ, ◌*◌, ◌≤◌, Str, codes, ◌≡◌, ◌↔◌, refl, true, false, Option, none, some, List, [], ◌∷◌,
  map, length, All, SameTexts, str_eq, str_eq_iff, str_eq_refl, contains, arith,
}
use postal_dnsbl_monitor.Common.{if◌then◌else◌}
use postal_dnsbl_monitor.Common.Ensures.{Ensures}
use postal_dnsbl_monitor.Common.Int.{pos}
use postal_dnsbl_monitor.Config.{Config, Env, from_env}
use postal_dnsbl_monitor.Config.Errors.{IsValueError, from_env-IsValueError}
use postal_dnsbl_monitor.Config.Valid.{IsValid, from_env-IsValid}
use postal_dnsbl_monitor.Common.Exec.{ok, err, value_error}
use postal_dnsbl_monitor.Common.Parse.{int}
use postal_dnsbl_monitor.Services.DnsChecker.{check_ip_concurrent}

-- The variables that are required, and no other.
abbrev variables : Env
variables = λ key.
    if contains
      (codes "DB_DSN"
        ∷ codes "DB_PORT"
        ∷ codes "DNS_TIMEOUT"
        ∷ codes "DNS_CONCURRENCY"
        ∷ codes "LISTED_PRIORITY"
        ∷ codes "CLEAN_FALLBACK_PRIORITY"
        ∷ codes "JIRA_EXCLUDED_STATUSES"
        ∷ codes "DRY_RUN"
        ∷ codes "ENABLE_NETWORK_CONNECTIVITY_CHECK"
        ∷ codes "VERBOSE"
        ∷ [])
      key
    then none
    else if str_eq key (codes "JIRA_SERVER")
    then some (codes "https://j")
    else some (codes " a.org, b.org,")

loads : (c : Config) × ((from_env variables).0 ≡ ok c)
unfolding from_env postal_dnsbl_monitor.Config.db_settings contains str_eq
    postal_dnsbl_monitor.Config.get_required_env postal_dnsbl_monitor.Config.int_env
    postal_dnsbl_monitor.Common.Parse.int postal_dnsbl_monitor.Common.Split.strip
    postal_dnsbl_monitor.Common.Split.lstrip postal_dnsbl_monitor.Common.Split.is_space
    postal_dnsbl_monitor.Config.items postal_dnsbl_monitor.Config.stripped
    postal_dnsbl_monitor.Common.Split.split postal_dnsbl_monitor.Common.Split.onto_first
    postal_dnsbl_monitor.Services.DnsChecker.starts_with
loads = (_, refl)

-- The port is not checked, and becomes a part of the DSN.
abbrev bad_port : Env
bad_port key = if str_eq key (codes "DB_PORT") then some (codes "99999") else variables key

port_unchecked : (c : Config) × ((from_env bad_port).0 ≡ ok c) × (c.db_port ≡ pos 99999)
unfolding from_env postal_dnsbl_monitor.Config.db_settings contains str_eq
    postal_dnsbl_monitor.Config.get_required_env postal_dnsbl_monitor.Config.int_env
    postal_dnsbl_monitor.Common.Parse.int postal_dnsbl_monitor.Common.Split.strip
    postal_dnsbl_monitor.Common.Split.lstrip postal_dnsbl_monitor.Common.Split.is_space
    postal_dnsbl_monitor.Config.items postal_dnsbl_monitor.Config.stripped
    postal_dnsbl_monitor.Common.Split.split postal_dnsbl_monitor.Common.Split.onto_first
    postal_dnsbl_monitor.Services.DnsChecker.starts_with
port_unchecked = (_, refl, refl)

from_env-IsValid_example : Ensures IsValid (from_env variables)
from_env-IsValid_example = from_env-IsValid variables

-- No variable is set.
abbrev no_variables : Env
no_variables key = none

from_env-IsValueError_example : IsValueError (from_env no_variables).0
from_env-IsValueError_example = from_env-IsValueError no_variables

-- `int` skips the space around the digits, but not a separator.
skipped : int (codes " 5\n") ≡ ok (pos 5)
unfolding int postal_dnsbl_monitor.Common.Split.is_space
skipped = refl

separator :
    int (28 ∷ codes "5") ≡ err (value_error (codes "invalid literal for int() with base 10"))
unfolding int postal_dnsbl_monitor.Common.Split.is_space
separator = refl
