-- ===== src/Models/StateTransition/Decision.antt =====
-- When a record changes, and to what.
use mathlib.Core.List.{Perm, Permᴰ, append-nil, append_assoc}
use mathlib.Core.List.Perm
use mathlib.Core.Logic.{∥∥₁_elim}
use postal_dnsbl_monitor.Common.{
  Str, ◌≡◌, ◌↔◌, ◌⊎◌, refl, sym, ap, ◌∙◌, Bool, true, false, none, some, List, [], ◌∷◌, ◌++◌, arith,
  if◌then◌else◌, contains, SameTexts, str_eq_refl,
}
use postal_dnsbl_monitor.Common.Sorting.{sorted, to_set, set_eq}
use postal_dnsbl_monitor.Common.Sorting.Laws.{
  contains-sorted, contains-to_set, set_eq_iff, sorted-eq_of_perm,
}
use postal_dnsbl_monitor.Models.DnsResult.{DnsResult, is_listed}
use postal_dnsbl_monitor.Models.IpRecord.{
  IpRecord, non_empty, is_currently_listed, get_listed_zones, listed-non_empty, zones_of,
}
use postal_dnsbl_monitor.Models.StateTransition.{
  StateTransition, listed, aggregate_loop, aggregate_dns_results, state_of, transition_to,
  determine_state_transition,
}

-- The zones whose result satisfies `p`, in the order of the results.
abbrev pub zones_where : (DnsResult → Bool) → List DnsResult → List Str
zones_where p [] = []
zones_where p (r ∷ rs) = let rest = zones_where p rs in if p r then r.zone ∷ rest else rest

append_if :
    (b : Bool) (l : List Str) (z : Str) (rest : List Str)
    → (if b then l ++ (z ∷ []) else l) ++ rest ≡ l ++ (if b then z ∷ rest else rest)
append_if true l z rest = append_assoc l (z ∷ []) rest
append_if false l z rest = refl

aggregate_loop_listed :
    (rs : List DnsResult) (l u : List Str)
    → (aggregate_loop rs l u).0 ≡ l ++ zones_where is_listed rs
unfolding aggregate_loop
aggregate_loop_listed [] l u = sym (append-nil l)
aggregate_loop_listed (r ∷ rs) l u =
    aggregate_loop_listed rs _ _ ∙ append_if (is_listed r) l r.zone (zones_where is_listed rs)

-- The listed zones are the sorted zones of the results that say LISTED.
pub aggregate-listed :
    (rs : List DnsResult) → (aggregate_dns_results rs).0 ≡ sorted (zones_where is_listed rs)
unfolding aggregate_dns_results
aggregate-listed rs = ap sorted (aggregate_loop_listed rs [] [])

pub SameTexts-non_empty : (xs ys : List Str) → SameTexts xs ys → non_empty xs ≡ non_empty ys
unfolding contains
SameTexts-non_empty [] [] h = refl
SameTexts-non_empty [] (y ∷ ys) h = ground (arith, h y, str_eq_refl y)
SameTexts-non_empty (x ∷ xs) [] h = ground (arith, h x, str_eq_refl x)
SameTexts-non_empty (x ∷ xs) (y ∷ ys) h = refl

cons_if :
    (b c : Bool) {x y : Str} {xs ys : List Str}
    → b ≡ c
    → x ≡ y
    → Perm xs ys
    → Perm (if b then x ∷ xs else xs) (if c then y ∷ ys else ys)
cons_if true true {x = x} e f h = rw (← f) (Perm.cons x h)
cons_if false false e f h = h
cons_if true false e f h = cc
cons_if false true e f h = cc

swap_if :
    (b c : Bool) (x y : Str) (l : List Str)
    → Perm
        (if b then x ∷ (if c then y ∷ l else l) else (if c then y ∷ l else l))
        (if c then y ∷ (if b then x ∷ l else l) else (if b then x ∷ l else l))
swap_if true true x y l = Perm.swap y x l
swap_if true false x y l = Perm.refl (x ∷ l)
swap_if false true x y l = Perm.refl (y ∷ l)
swap_if false false x y l = Perm.refl l

zones_where-permᴰ :
    (p : DnsResult → Bool) {rs rs' : List DnsResult}
    → Permᴰ rs rs'
    → Perm (zones_where p rs) (zones_where p rs')
zones_where-permᴰ p Permᴰ.nil = Perm.refl []
zones_where-permᴰ p (Permᴰ.cons {a = a} {b = b} e q) =
    cons_if (p a) (p b) (ap p e) (ap (λ (r : DnsResult). r.zone) e) (zones_where-permᴰ p q)
zones_where-permᴰ p (Permᴰ.swap {a = a} {b = b} {l = l} e f) =
    rw (← e, ← f) (swap_if (p a) (p b) a.zone b.zone (zones_where p l))
zones_where-permᴰ p (Permᴰ.trans q s) = Perm.trans (zones_where-permᴰ p q) (zones_where-permᴰ p s)

-- The listed zones do not depend on the order of the results.
pub aggregate-perm :
    {rs rs' : List DnsResult}
    → Perm rs rs'
    → (aggregate_dns_results rs).0 ≡ (aggregate_dns_results rs').0
aggregate-perm {rs} {rs'} h =
    aggregate-listed rs
    ∙ sorted-eq_of_perm (∥∥₁_elim h squash₁ (zones_where-permᴰ is_listed))
    ∙ sym (aggregate-listed rs')

-- The order in which the results come in does not change the transition.
pub determine-perm :
    (r : IpRecord) {rs rs' : List DnsResult}
    → Perm rs rs'
    → determine_state_transition r rs ≡ determine_state_transition r rs'
unfolding determine_state_transition
determine-perm r h = ap (transition_to r) (aggregate-perm h)

to_set_eq_iff : (xs ys : List Str) → (set_eq (to_set xs) (to_set ys) ≡ true) ↔ SameTexts xs ys
to_set_eq_iff xs ys = (
  λ h s. sym (contains-to_set xs s) ∙ (set_eq_iff _ _).0 h s ∙ contains-to_set ys s,
  λ h. (set_eq_iff _ _).1 (λ s. contains-to_set xs s ∙ h s ∙ sym (contains-to_set ys s)),
)

-- A record is left alone exactly when it names the zones that list it now.
pub transition_to-none_iff :
    (r : IpRecord) (zones : List Str)
    → (transition_to r zones ≡ none) ↔ SameTexts (get_listed_zones r) zones
unfolding transition_to is_currently_listed get_listed_zones
transition_to-none_iff r zones = (
  λ h. (to_set_eq_iff (get_listed_zones r) zones).0 (ground arith),
  λ h. ground (
    arith,
    (to_set_eq_iff (get_listed_zones r) zones).1 h,
    SameTexts-non_empty (get_listed_zones r) zones h,
    listed-non_empty r.blocking_lists,
  ),
)

-- What a transition says about its record and the zones that list it now.
pub record Describes (r : IpRecord) (zones : List Str) (t : StateTransition) : Type 0 where
  pub ip : t.ip ≡ r.ip
  pub previous : t.previous_state ≡ state_of (non_empty r.blocking_lists)
  pub new : t.new_state ≡ state_of (non_empty zones)
  pub listed_zones : t.listed_zones ≡ zones
  pub some_listed : (t.previous_state ≡ listed) ⊎ (t.new_state ≡ listed)

pub transition_to-Describes :
    (r : IpRecord) (zones : List Str) {t : StateTransition}
    → transition_to r zones ≡ some t
    → Describes r zones t
unfolding transition_to is_currently_listed get_listed_zones to_set set_eq zones_of
transition_to-Describes r zones h = ground arith

-- A record is left alone exactly when the zones that it names are those of the results that say
-- LISTED, whatever the order and the number of the results.
pub determine-none_iff :
    (r : IpRecord) (rs : List DnsResult)
    → (determine_state_transition r rs ≡ none)
      ↔ SameTexts (get_listed_zones r) (zones_where is_listed rs)
unfolding determine_state_transition
determine-none_iff r rs =
    let sorted_zones = contains-sorted (zones_where is_listed rs) in
    let agg = aggregate-listed rs in
    (
      λ h z.
          (transition_to-none_iff r (aggregate_dns_results rs).0).0 h z
          ∙ ap (λ (zs : List Str). contains zs z) agg
          ∙ sorted_zones z,
      λ h.
          (transition_to-none_iff r (aggregate_dns_results rs).0).1
            (λ z. h z ∙ sym (sorted_zones z) ∙ sym (ap (λ (zs : List Str). contains zs z) agg)),
    )
