-- ===== src/Config/Errors.antt =====
-- The exceptions of the loading of a configuration.
use postal_dnsbl_monitor.Common.{
  Str, codes, ◌≡◌, refl, Bool, true, false, not, Option, none, some, [], ◌∷◌, ℕ, ◌==◌, Bool-cases,
  inl, inr,
}
use postal_dnsbl_monitor.Common.Int.{ℤ, pos, leb_ℤ}
use postal_dnsbl_monitor.Common.Parse.{int, signed, literal, digits_of, negated, trimmed}
use postal_dnsbl_monitor.Common.Exec.{Exec, Result, ok, err, value_error, continue, ◌>>=◌, ◌>>◌}
use postal_dnsbl_monitor.Models.IpRecord.{non_empty}
use postal_dnsbl_monitor.Services.DnsChecker.{starts_with}
use postal_dnsbl_monitor.Config.{
  Env, check, between, items, required, from_env, db_settings, db_parameters, dnsbl_settings,
  priority_settings, jira_settings, get_required_env, int_env, priorities_message, or_default,
}

-- A ValueError, if it is an exception.
abbrev pub IsValueError : {A : Type 0} → Result A → Type 0
IsValueError (ok a) = Unit
IsValueError (err e) = (s : Str) × (e ≡ value_error s)

-- An action that raises nothing else.
abbrev Safe : {A : Type 0} → Exec Env A → Type 0
Safe m = (s : Env) → IsValueError (m s).0

in_turn :
    {A B : Type 0} (m : Exec Env A) (k : A → Exec Env B)
    → Safe m
    → ((a : A) → Safe (k a))
    → Safe (m >>= k)
in_turn {A} m k h rest s = go (m s).0 (h s)
  where
    go : (r : Result A) → IsValueError r → IsValueError (continue r k (m s).1).0
    go (ok a) h = rest a (m s).1
    go (err e) h = h

check-IsValueError : (b : Bool) (message : Str) (s : Env) → IsValueError (check b message s).0
check-IsValueError true message s = tt
check-IsValueError false message s = (message, refl)

required-IsValueError : (key : Str) (o : Option Str) (s : Env) → IsValueError (required key o s).0
required-IsValueError key none s = (_, refl)
required-IsValueError key (some []) s = (_, refl)
required-IsValueError key (some (c ∷ t)) s = tt

get_required_env-IsValueError : (key : Str) (s : Env) → IsValueError (get_required_env key s).0
unfolding get_required_env
get_required_env-IsValueError key s = required-IsValueError key (s key) s

literal-IsValueError : (sign : ℕ → ℤ) (o : Option ℕ) → IsValueError (literal sign o)
literal-IsValueError sign none = (_, refl)
literal-IsValueError sign (some n) = tt

signed-IsValueError : (s : Str) → IsValueError (signed s)
unfolding signed
signed-IsValueError [] = (_, refl)
signed-IsValueError (c ∷ s) = elim (Bool-cases (c == b'-')) [
  | inl e ↦ rw e (literal-IsValueError negated (digits_of 0 false s))
  | inr e ↦ elim (Bool-cases (c == b'+')) [
    | inl f ↦ rw (e, f) (literal-IsValueError pos (digits_of 0 false s))
    | inr f ↦ rw (e, f) (literal-IsValueError pos (digits_of 0 false (c ∷ s)))
  ]
]

int_env-IsValueError : (key default : Str) (s : Env) → IsValueError (int_env key default s).0
unfolding int_env int
int_env-IsValueError key default s = signed-IsValueError (trimmed (or_default default (s key)))

needed :
    {B : Type 0} (key : Str) (k : Str → Exec Env B)
    → ((a : Str) → Safe (k a))
    → Safe (get_required_env key >>= k)
needed key k rest = in_turn (get_required_env key) k (get_required_env-IsValueError key) rest

number :
    {B : Type 0} (key default : Str) (k : ℤ → Exec Env B)
    → ((a : ℤ) → Safe (k a))
    → Safe (int_env key default >>= k)
number key default k rest = in_turn (int_env key default) k (int_env-IsValueError key default) rest

checked :
    {B : Type 0} (b : Bool) (message : Str) (k : Exec Env B) → Safe k → Safe (check b message >> k)
checked b message k rest =
    in_turn (check b message) (λ _. k) (check-IsValueError b message) (λ _. rest)

parameters-IsValueError : (s : Env) → IsValueError (db_parameters s).0
parameters-IsValueError = needed (codes "DB_HOST") _ (λ host.
    number (codes "DB_PORT") (codes "3306") _ (λ port. needed (codes "DB_NAME") _ (λ name.
      needed (codes "DB_USER") _ (λ user. needed (codes "DB_PASSWORD") _ (λ password s. tt)))))

db_settings-IsValueError : (dsn : Option Str) (s : Env) → IsValueError (db_settings dsn s).0
unfolding db_settings
db_settings-IsValueError (some (c ∷ dsn)) s = tt
db_settings-IsValueError (some []) s = parameters-IsValueError s
db_settings-IsValueError none s = parameters-IsValueError s

dnsbl_settings-IsValueError : (s : Env) → IsValueError (dnsbl_settings s).0
unfolding dnsbl_settings
dnsbl_settings-IsValueError = needed (codes "DNSBL_ZONES") _ (λ zones_str.
    checked (non_empty (items zones_str)) _ _ (
      number (codes "DNS_TIMEOUT") (codes "5") _ (λ timeout. checked (between 1 60 timeout) _ _ (
        number (codes "DNS_CONCURRENCY") (codes "10") _
          (λ concurrency. checked (between 1 100 concurrency) _ _ (λ s. tt))))))

priority_settings-IsValueError : (s : Env) → IsValueError (priority_settings s).0
unfolding priority_settings
priority_settings-IsValueError = number (codes "LISTED_PRIORITY") (codes "0") _ (λ listed.
    number (codes "CLEAN_FALLBACK_PRIORITY") (codes "50") _ (λ fallback.
      checked (between 0 100 listed) _ _ (
        checked (between 0 100 fallback) _ _ (
          checked (not (leb_ℤ fallback listed)) (priorities_message listed fallback) _ (λ s. tt)))))

jira_settings-IsValueError : (s : Env) → IsValueError (jira_settings s).0
unfolding jira_settings
jira_settings-IsValueError = needed (codes "JIRA_SERVER") _ (λ server.
    checked (starts_with server (codes "https://")) _ _ (
      needed (codes "JIRA_USER") _ (λ user. needed (codes "JIRA_API_TOKEN") _ (λ token.
        needed (codes "JIRA_PROJECT") _ (λ project.
          needed (codes "JIRA_ISSUE_TYPE") _ (λ issue_type.
            needed (codes "JIRA_DNS_FAILURE_ISSUE_TYPE") _ (λ failure_type s. tt)))))))

-- The loading of a configuration raises nothing but a ValueError, whatever the environment.
pub from_env-IsValueError : (env : Env) → IsValueError (from_env env).0
unfolding from_env
from_env-IsValueError env =
    in_turn (db_settings (env (codes "DB_DSN"))) _ (db_settings-IsValueError (env (codes "DB_DSN")))
      (λ db. in_turn dnsbl_settings _ dnsbl_settings-IsValueError (λ dnsbl.
        in_turn priority_settings _ priority_settings-IsValueError
          (λ priorities. in_turn jira_settings _ jira_settings-IsValueError (λ jira s. tt))))
      env
