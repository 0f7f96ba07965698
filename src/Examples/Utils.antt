-- ===== src/Examples/Utils.antt =====
-- Addresses, queries and a call that is attempted until it succeeds.
use mathlib.Core.List.{reverse}
use postal_dnsbl_monitor.Common.Split.{split}
use postal_dnsbl_monitor.Common.{
  ℕ, zero, suc, ◌≤◌, Str, codes, ◌≡◌, ◌≢◌, refl, true, some, List, [], ◌∷◌, length, ◌↔◌, arith,
  if◌then◌else◌,
}
use postal_dnsbl_monitor.Common.Exec.{Exec, ok, err, dns_timeout}
use postal_dnsbl_monitor.Utils.IpUtils.{is_valid_ipv4, reverse_ip, build_dnsbl_query}
use postal_dnsbl_monitor.Utils.IpUtils.Reversal.{
  reverse_ip-reverse_ip, build_dnsbl_query-injective, build_dnsbl_query-ok_iff,
}
use postal_dnsbl_monitor.Utils.Retry.{exponential_backoff_retry}
use postal_dnsbl_monitor.Utils.Retry.Runs.{Fails, Ends, retry-Ends}
use postal_dnsbl_monitor.Examples.{zen, address}

reverse_ip-reverse_ip_example :
    (r : Str) × (reverse_ip address ≡ ok r)
    × (split b'.' r ≡ reverse (split b'.' address))
    × (is_valid_ipv4 r ≡ true)
    × (reverse_ip r ≡ ok address)
unfolding is_valid_ipv4 postal_dnsbl_monitor.Common.Split.split
    postal_dnsbl_monitor.Common.Split.onto_first
reverse_ip-reverse_ip_example = reverse_ip-reverse_ip address refl

build_dnsbl_query-injective_example : (address ≡ address) × (zen ≡ zen)
unfolding build_dnsbl_query reverse_ip is_valid_ipv4 postal_dnsbl_monitor.Common.Split.split
    postal_dnsbl_monitor.Common.Split.onto_first postal_dnsbl_monitor.Common.Split.join
build_dnsbl_query-injective_example =
    build_dnsbl_query-injective address address zen zen {q = codes "45.113.0.203.zen.org"} refl refl

build_dnsbl_query-ok_iff_example :
    ((q : Str) × (build_dnsbl_query address zen ≡ ok q))
    ↔ ((is_valid_ipv4 address ≡ true) × (zen ≢ []))
build_dnsbl_query-ok_iff_example = build_dnsbl_query-ok_iff address zen

-- A call on the number of attempts that are still to fail.
abbrev countdown : Exec ℕ ℕ
countdown zero = (ok 7, 0)
countdown (suc n) = (err dns_timeout, n)

abbrev delays : List ℕ
delays = 1 ∷ 2 ∷ 4 ∷ []

retry-Ends_example :
    (k : ℕ) × (k ≤ 3)
    × Fails (λ d s. s) 3 delays countdown 0 k 2
    × Ends
        (λ d s. s)
        3
        delays
        countdown
        0
        k
        2
        (exponential_backoff_retry (λ d s. s) 3 delays countdown 2)
retry-Ends_example = retry-Ends (λ d s. s) 3 delays countdown 2 (omega arith)
