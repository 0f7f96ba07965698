-- ===== src/Config/Environment.antt =====
-- The reading of the environment in src/config.py. The environment is a function from the names of its
-- variables, and an action on it reads it and leaves it as it is.
use postal_dnsbl_monitor.Common.{
  ℕ, Str, codes, Bool, true, false, ◌&&◌, Option, none, some, List, [], ◌∷◌, ◌++◌, map, contains,
}
use postal_dnsbl_monitor.Common.Int.{ℤ, pos, leb_ℤ}
use postal_dnsbl_monitor.Common.Show.{show_ℤ}
use postal_dnsbl_monitor.Common.Parse.{int}
use postal_dnsbl_monitor.Common.Split.{split, strip}
use postal_dnsbl_monitor.Services.JiraClient.{lower}
use postal_dnsbl_monitor.Common.Exec.{Exec, value_error, pure, raise, lift, gets, ◌>>=◌}

abbrev pub Env : Type 0
Env = Str → Option Str

-- `os.getenv(key)`
abbrev pub getenv : Str → Exec Env (Option Str)
getenv key = gets (λ env. env key)

-- `os.getenv(key, default)`
abbrev pub or_default : Str → Option Str → Str
or_default default none = default
or_default default (some s) = s

abbrev pub getenv_or : Str → Str → Exec Env Str
getenv_or key default = gets (λ env. or_default default (env key))

abbrev pub not_set : Str → Exec Env Str
not_set key =
    raise (value_error (codes "Required environment variable " ++ (key ++ codes " is not set")))

abbrev pub required : Str → Option Str → Exec Env Str
required key none = not_set key
required key (some []) = not_set key
required key (some (c ∷ s)) = pure (c ∷ s)

unfoldable pub get_required_env : Str → Exec Env Str
get_required_env key = do value ← getenv key; required key value

-- `int(os.getenv(key, default))`
unfoldable pub int_env : Str → Str → Exec Env ℤ
int_env key default = do s ← getenv_or key default; lift (int s)

-- `if not test: raise ValueError(message)`
abbrev pub check : Bool → Str → Exec Env Unit
check true message = pure tt
check false message = raise (value_error message)

-- `[s.strip() for s in text.split(",") if s.strip()]`
abbrev pub add_item : Str → List Str → List Str
add_item [] items = items
add_item (c ∷ s) items = (c ∷ s) ∷ items

unfoldable pub stripped : List Str → List Str
stripped [] = []
stripped (s ∷ parts) = add_item (strip s) (stripped parts)

unfoldable pub items : Str → List Str
items text = stripped (split b',' text)

-- `text.lower() in ("true", "1", "yes")`; no character outside ASCII becomes one of those
unfoldable pub is_true : Str → Bool
is_true text = contains (codes "true" ∷ codes "1" ∷ codes "yes" ∷ []) (map lower text)

-- `low <= n <= high`
abbrev pub between : ℕ → ℕ → ℤ → Bool
between low high n = leb_ℤ (pos low) n && leb_ℤ n (pos high)

unfoldable pub priorities_message : ℤ → ℤ → Str
priorities_message listed fallback =
    codes "LISTED_PRIORITY ("
    ++ (show_ℤ listed
        ++ (codes ") must be < CLEAN_FALLBACK_PRIORITY (" ++ (show_ℤ fallback ++ codes ")")))
