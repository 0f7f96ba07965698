-- ===== src/Utils/NetworkCheck.antt =====
-- src/utils/network_check.py. dnspython is two parameters: what `Resolver()` raises where the check of
-- a nameserver makes one, and what a query for google.com gives there, the answers or an exception.
use postal_dnsbl_monitor.Common.{
  Str, codes, Bool, true, false, Option, none, some, List, ltb, length,
}
use postal_dnsbl_monitor.Common.Exec.{Exn, Result, ok, err}
use postal_dnsbl_monitor.Models.DnsblHealth.{NetworkConnectivityResult}

module _ (new_resolver : Str → Option Exn) (resolve : Str → Result (List Str)) where
  -- `len(answers) > 0`, and False in each of the handlers
  abbrev answered : Result (List Str) → Bool
  answered (ok answers) = ltb 0 (length answers)
  answered (err e) = false

  -- the `try`, with the resolver that was made before it
  abbrev with_resolver : Option Exn → Str → Result Bool
  with_resolver none nameserver = ok (answered (resolve nameserver))
  with_resolver (some e) nameserver = err e

  unfoldable pub check_resolver : Str → Result Bool
  check_resolver nameserver = with_resolver (new_resolver nameserver) nameserver

  -- the two checks, one after the other
  abbrev pub connectivity_of : Result Bool → Result Bool → Result NetworkConnectivityResult
  connectivity_of (err e) google = err e
  connectivity_of (ok cloudflare) (err e) = err e
  connectivity_of (ok cloudflare) (ok google) = ok (record {
    check_enabled = true;
    cloudflare_reachable = some cloudflare;
    google_reachable = some google;
  })

  unfoldable pub check_connectivity : Result NetworkConnectivityResult
  unfolding check_resolver
  check_connectivity =
      connectivity_of (check_resolver (codes "1.1.1.1")) (check_resolver (codes "8.8.8.8"))
