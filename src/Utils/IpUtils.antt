-- ===== src/Utils/IpUtils.antt =====
-- src/utils/ip_utils.py. `ipaddress.ip_address` gives an `IPv4Address` exactly for four decimal
-- octets, of at most three ASCII digits and no leading zero, up to 255.
pub mod Reversal
use mathlib.Core.List.{reverse}
use postal_dnsbl_monitor.Common.{
  ℕ, zero, suc, ◌+◌, ◌*◌, ◌-◌, Str, codes, Bool, true, false, not, ◌&&◌, ◌||◌, List, [], ◌∷◌, ◌++◌,
  ◌==◌, leb, if◌then◌else◌, length, every,
}
use postal_dnsbl_monitor.Common.Exec.{Result, ok, err, value_error}
use postal_dnsbl_monitor.Common.Split.{split, join}
use postal_dnsbl_monitor.Models.IpRecord.{non_empty}

abbrev pub dot : ℕ
dot = b'.'

unfoldable pub is_digit : ℕ → Bool
is_digit c = leb b'0' c && leb c b'9'

-- the number that a text of digits spells
unfoldable pub decimal : ℕ → Str → ℕ
decimal n [] = n
decimal n (c ∷ s) = decimal (n * 10 + (c - b'0')) s

unfoldable pub leading_zero : Str → Bool
leading_zero (c ∷ d ∷ s) = c == b'0'
leading_zero _ = false

unfoldable pub is_octet : Str → Bool
unfolding is_digit decimal leading_zero
is_octet s =
    non_empty s
    && every is_digit s
    && leb (length s) 3
    && not (leading_zero s)
    && leb (decimal 0 s) 255

unfoldable pub is_valid_ipv4 : Str → Bool
unfolding is_octet
is_valid_ipv4 ip = let octets = split dot ip in length octets == 4 && every is_octet octets

unfoldable pub invalid_address : Str → Str
invalid_address ip = codes "Invalid IPv4 address: " ++ ip

unfoldable pub reverse_ip : Str → Result Str
reverse_ip ip =
    if not (is_valid_ipv4 ip)
    then err (value_error (invalid_address ip))
    else ok (join (dot ∷ []) (reverse (split dot ip)))

-- `f"{reversed_ip}.{zone}"`
abbrev pub under : Str → Result Str → Result Str
under zone (ok reversed_ip) = ok (reversed_ip ++ (dot ∷ zone))
under zone (err e) = err e

unfoldable pub build_dnsbl_query : Str → Str → Result Str
build_dnsbl_query ip [] = err (value_error (codes "DNSBL zone cannot be empty"))
build_dnsbl_query ip (c ∷ zone) = under (c ∷ zone) (reverse_ip ip)
