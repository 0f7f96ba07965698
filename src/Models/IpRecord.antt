-- ===== src/Models/IpRecord.antt =====
-- src/models/ip_record.py: one row of postal.ip_addresses as the program sees it.
use postal_dnsbl_monitor.Common.{
  ℕ, Str, Bool, true, false, Option, List, [], ◌∷◌, ◌≡◌, refl, arith, if◌then◌else◌,
}
use postal_dnsbl_monitor.Common.Int.{ℤ}
use postal_dnsbl_monitor.Common.Split.{split, onto_first}

pub record IpRecord : Type 0 where
  pub id : ℕ
  pub ip : Str
  pub priority : ℤ
  pub old_priority : Option ℤ
  pub blocking_lists : Str
  pub last_event : Option Str

-- `bool(xs)`, for a text or a list
abbrev pub non_empty {ℓ} : {A : Type ℓ} → List A → Bool
non_empty [] = false
non_empty (x ∷ xs) = true

-- the separator of `blocking_lists`
abbrev pub comma : ℕ
comma = b','

unfoldable pub is_currently_listed : IpRecord → Bool
is_currently_listed r = non_empty r.blocking_lists

-- `blocking_lists.split(",")`, with the test for the empty text
unfoldable pub zones_of : Str → List Str
zones_of s = if non_empty s then split comma s else []

unfoldable pub get_listed_zones : IpRecord → List Str
unfolding zones_of
get_listed_zones r = zones_of r.blocking_lists

-- A record is listed exactly when it names a zone.
pub listed-non_empty : (s : Str) → non_empty (zones_of s) ≡ non_empty s
unfolding zones_of split onto_first
listed-non_empty [] = refl
listed-non_empty (c ∷ s) = ground arith
