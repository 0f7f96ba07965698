-- ===== src/Utils/IpUtils/Reversal.antt =====
-- Reversal undoes itself, and a query names its address and its zone.
use mathlib.Core.Path.{subst}
use mathlib.Core.List.{reverse}
use postal_dnsbl_monitor.Common.{
  Str, ◌≡◌, ◌≢◌, refl, sym, ap, ◌∙◌, true, ◌&&◌, List, [], ◌∷◌, ◌++◌, ◌==◌, arith, length, every,
  inl, inr, ◌↔◌,
}
use postal_dnsbl_monitor.Common.Exec.{ok, Result-cases}
use postal_dnsbl_monitor.Common.Split.{split, join}
use postal_dnsbl_monitor.Common.Split.Laws.{
  Lacks, split-join, split-join-append, join-split, split-Lacks,
}
use postal_dnsbl_monitor.Utils.IpUtils.{dot, is_octet, is_valid_ipv4, reverse_ip, build_dnsbl_query}

-- The four octets of a valid address.
record Octets (ip a b c d : Str) : Type 0 where
  parts : split dot ip ≡ a ∷ b ∷ c ∷ d ∷ []
  valid : every is_octet (a ∷ b ∷ c ∷ d ∷ []) ≡ true
  lacks : Lacks dot (a ∷ b ∷ c ∷ d ∷ [])

four_octets :
    (l : List Str)
    → (length l == 4 && every is_octet l) ≡ true
    → (a b c d : Str) × (l ≡ a ∷ b ∷ c ∷ d ∷ [])
four_octets [] h = cc
four_octets (a ∷ []) h = cc
four_octets (a ∷ b ∷ []) h = cc
four_octets (a ∷ b ∷ c ∷ []) h = cc
four_octets (a ∷ b ∷ c ∷ d ∷ []) h = (a, b, c, d, refl)
four_octets (a ∷ b ∷ c ∷ d ∷ e ∷ l) h = absurd (ground arith)

Octets-of : (ip : Str) → is_valid_ipv4 ip ≡ true → (a b c d : Str) × Octets ip a b c d
unfolding is_valid_ipv4
Octets-of ip h =
    let (a, b, c, d, e) = four_octets (split dot ip) h in
    (
      a,
      b,
      c,
      d,
      record {
        parts = e;
        valid = subst (λ l. every is_octet l ≡ true) e (ground arith);
        lacks = subst (Lacks dot) e (split-Lacks dot ip);
      },
    )

dotted : List Str → Str
dotted = join (dot ∷ [])

split-dotted :
    (a b c d : Str)
    → Lacks dot (a ∷ b ∷ c ∷ d ∷ [])
    → split dot (dotted (a ∷ b ∷ c ∷ d ∷ [])) ≡ a ∷ b ∷ c ∷ d ∷ []
unfolding dotted
split-dotted a b c d h = split-join dot (a ∷ b ∷ c ∷ d ∷ []) (λ e. cc) h

reversed-Octets :
    (a b c d : Str)
    → every is_octet (a ∷ b ∷ c ∷ d ∷ []) ≡ true
    → Lacks dot (a ∷ b ∷ c ∷ d ∷ [])
    → Octets (dotted (d ∷ c ∷ b ∷ a ∷ [])) d c b a
reversed-Octets a b c d v l =
    let turned : Lacks dot (d ∷ c ∷ b ∷ a ∷ []) = ground arith in
    record { parts = split-dotted d c b a turned; valid = ground arith; lacks = turned }

valid-of-Octets : {ip a b c d : Str} → Octets ip a b c d → is_valid_ipv4 ip ≡ true
unfolding is_valid_ipv4
valid-of-Octets o = rw o.parts o.valid

reverse_ip-Octets :
    {ip a b c d : Str} → Octets ip a b c d → reverse_ip ip ≡ ok (dotted (d ∷ c ∷ b ∷ a ∷ []))
unfolding reverse_ip dotted
reverse_ip-Octets o = rw (valid-of-Octets o, o.parts) refl

dotted-Octets : {ip a b c d : Str} → Octets ip a b c d → dotted (a ∷ b ∷ c ∷ d ∷ []) ≡ ip
unfolding dotted
dotted-Octets {ip} o = ap (join (dot ∷ [])) (sym o.parts) ∙ join-split dot ip

-- A valid address is reversed: the result is a valid address whose octets are those of the address
-- in the other order, and reversing it gives the address back.
pub reverse_ip-reverse_ip :
    (ip : Str)
    → is_valid_ipv4 ip ≡ true
    → (r : Str) × (reverse_ip ip ≡ ok r)
      × (split dot r ≡ reverse (split dot ip))
      × (is_valid_ipv4 r ≡ true)
      × (reverse_ip r ≡ ok ip)
reverse_ip-reverse_ip ip h =
    let (a, b, c, d, o) = Octets-of ip h in
    let turned = reversed-Octets a b c d o.valid o.lacks in
    (
      dotted (d ∷ c ∷ b ∷ a ∷ []),
      reverse_ip-Octets o,
      turned.parts ∙ rw o.parts refl,
      valid-of-Octets turned,
      reverse_ip-Octets turned ∙ ap ok (dotted-Octets o),
    )

invalid_raises : (ip : Str) {r : Str} → reverse_ip ip ≡ ok r → is_valid_ipv4 ip ≡ true
unfolding reverse_ip
invalid_raises ip h = ground arith

-- The parts of a query, and that a query has an address and a zone.
record Query (ip zone q : Str) : Type 0 where
  octets : (a b c d : Str) × Octets ip a b c d × (split dot q ≡ d ∷ c ∷ b ∷ a ∷ split dot zone)

Query-of : (ip zone : Str) {q : Str} → build_dnsbl_query ip zone ≡ ok q → Query ip zone q
unfolding build_dnsbl_query
Query-of ip [] h = cc
Query-of ip (x ∷ zone) {q} h = elim (Result-cases (reverse_ip ip)) [
  | inr (e, raised) ↦ absurd (ground arith)
  | inl (r, returned) ↦
      let (a, b, c, d, o) = Octets-of ip (invalid_raises ip returned) in
      let turned = reversed-Octets a b c d o.valid o.lacks in
      let text : q ≡ dotted (d ∷ c ∷ b ∷ a ∷ []) ++ (dot ∷ x ∷ zone) =
        ground (arith, reverse_ip-Octets o) in
      record {
        octets = (
          a,
          b,
          c,
          d,
          o,
          ap (split dot) text
              ∙ unfold dotted in
                split-join-append dot (d ∷ c ∷ b ∷ a ∷ []) (x ∷ zone) (λ e. cc) turned.lacks,
        );
      }
]

Query-of-valid :
    (ip zone : Str) {q : Str} → build_dnsbl_query ip zone ≡ ok q → is_valid_ipv4 ip ≡ true
Query-of-valid ip zone h = let (a, b, c, d, o, e) = (Query-of ip zone h).octets in valid-of-Octets o

-- The query determines the address and the zone: no two checks ask the same question.
pub build_dnsbl_query-injective :
    (ip ip' zone zone' : Str) {q : Str}
    → build_dnsbl_query ip zone ≡ ok q
    → build_dnsbl_query ip' zone' ≡ ok q
    → (ip ≡ ip') × (zone ≡ zone')
build_dnsbl_query-injective ip ip' zone zone' h h' =
    let (a, b, c, d, o, e) = (Query-of ip zone h).octets in
    let (a', b', c', d', o', e') = (Query-of ip' zone' h').octets in
    (
      sym (dotted-Octets o) ∙ ap dotted (cc) ∙ dotted-Octets o',
      sym (join-split dot zone) ∙ ap (join (dot ∷ [])) (cc) ∙ join-split dot zone',
    )

-- A check raises exactly when its address is not an IPv4 address or its zone is empty.
pub build_dnsbl_query-ok_iff :
    (ip zone : Str)
    → ((q : Str) × (build_dnsbl_query ip zone ≡ ok q)) ↔ ((is_valid_ipv4 ip ≡ true) × (zone ≢ []))
unfolding build_dnsbl_query
build_dnsbl_query-ok_iff ip [] = (λ h. cc h.1, λ h. absurd (h.1 refl))
build_dnsbl_query-ok_iff ip (x ∷ zone) = (
  λ h. ((Query-of-valid ip (x ∷ zone) h.1), λ e. cc),
  λ h. let (r, e, _, _, _) = reverse_ip-reverse_ip ip h.0 in (r ++ (dot ∷ x ∷ zone), rw e refl),
)
