-- ===== src/Models/StateTransition/Delta.antt =====
-- What a transition reports as added and removed, and what UNKNOWN results do.
use mathlib.Core.Path.{subst₂}
use postal_dnsbl_monitor.Common.{
  Str, ◌≡◌, inl, inr, refl, sym, ap, ◌∙◌, true, not, ◌&&◌, ◌||◌, some, List, [], ◌∷◌, map, arith,
  if◌then◌else◌, All, contains, Option-cases,
}
use postal_dnsbl_monitor.Common.Sorting.{sorted, to_set, sort_by}
use postal_dnsbl_monitor.Common.Sorting.Laws.{
  contains-sorted, contains-to_set, contains-difference, IsAscending, sorted-IsAscending,
}
use postal_dnsbl_monitor.Models.DnsResult.{DnsResult, not_listed, is_listed, is_unknown}
use postal_dnsbl_monitor.Models.IpRecord.{IpRecord, is_currently_listed, get_listed_zones}
use postal_dnsbl_monitor.Models.StateTransition.{
  StateTransition, ZoneDelta, clean, listed, aggregate_dns_results, transition_to,
  detect_zone_delta, determine_state_transition,
}
use postal_dnsbl_monitor.Models.StateTransition.Decision.{
  zones_where, aggregate-listed, transition_to-Describes,
}

-- What the delta between two lists of zones says of each zone.
pub record IsDelta (current zones : List Str) (d : ZoneDelta) : Type 0 where
  pub added : (z : Str) → contains d.added z ≡ (contains zones z && not (contains current z))
  pub removed : (z : Str) → contains d.removed z ≡ (contains current z && not (contains zones z))
  pub patches :
      (z : Str)
      → contains zones z
        ≡ ((contains current z && not (contains d.removed z)) || contains d.added z)
  pub ascending : IsAscending d.added × IsAscending d.removed

contains-delta :
    (xs ys : List Str) (z : Str)
    → contains (detect_zone_delta xs ys).added z ≡ (contains ys z && not (contains xs z))
unfolding detect_zone_delta
contains-delta xs ys z =
    contains-sorted _ z
    ∙ contains-difference (to_set ys) (to_set xs) z
    ∙ ground (arith, contains-to_set xs z, contains-to_set ys z)

removed-added :
    (xs ys : List Str) → (detect_zone_delta xs ys).removed ≡ (detect_zone_delta ys xs).added
unfolding detect_zone_delta
removed-added xs ys = refl

contains-removed :
    (xs ys : List Str) (z : Str)
    → contains (detect_zone_delta xs ys).removed z ≡ (contains xs z && not (contains ys z))
contains-removed xs ys z = rw removed-added (contains-delta ys xs z)

-- `detect_zone_delta` reports the zones of the one list that are missing from the other, in
-- ascending order; dropping the removed zones and adding the added ones turns the current list
-- into the new one.
pub detect_zone_delta-IsDelta :
    (current zones : List Str) → IsDelta current zones (detect_zone_delta current zones)
detect_zone_delta-IsDelta current zones = record {
  added = contains-delta current zones;
  removed = contains-removed current zones;
  patches = λ z. ground (arith, contains-delta current zones z, contains-removed current zones z);
  ascending = unfold detect_zone_delta in (sorted-IsAscending _, sorted-IsAscending _);
}

pub delta-detect_zone_delta :
    (r : IpRecord) (zones : List Str) {t : StateTransition}
    → transition_to r zones ≡ some t
    → t.zone_delta ≡ detect_zone_delta (get_listed_zones r) zones
unfolding transition_to detect_zone_delta
delta-detect_zone_delta r zones h = ground arith

-- The delta of a transition leads from the record's zones to the zones that list it now.
pub determine-IsDelta :
    (r : IpRecord) (rs : List DnsResult) {t : StateTransition}
    → determine_state_transition r rs ≡ some t
    → IsDelta (get_listed_zones r) t.listed_zones t.zone_delta
unfolding determine_state_transition
determine-IsDelta r rs {t} h =
    let zones = (aggregate_dns_results rs).0 in
    subst₂ (IsDelta (get_listed_zones r)) (sym (transition_to-Describes r zones h).listed_zones)
      (sym (delta-detect_zone_delta r zones h))
      (detect_zone_delta-IsDelta (get_listed_zones r) zones)

-- An UNKNOWN result taken for NOT_LISTED.
abbrev pub forget_unknown : DnsResult → DnsResult
forget_unknown q = record q { status = if is_unknown q then not_listed else q.status }

zones_where-forget_unknown :
    (rs : List DnsResult) → zones_where is_listed (map forget_unknown rs) ≡ zones_where is_listed rs
zones_where-forget_unknown [] = refl
zones_where-forget_unknown (q ∷ rs) = ground (arith, zones_where-forget_unknown rs)

-- An UNKNOWN result counts as NOT_LISTED: the transition is the one that the other results give.
pub determine-forget_unknown :
    (r : IpRecord) (rs : List DnsResult)
    → determine_state_transition r (map forget_unknown rs) ≡ determine_state_transition r rs
unfolding determine_state_transition
determine-forget_unknown r rs = ap (transition_to r) (
    aggregate-listed (map forget_unknown rs)
    ∙ ap sorted (zones_where-forget_unknown rs)
    ∙ sym (aggregate-listed rs))

zones_where-unknown :
    (rs : List DnsResult) → All (λ q. is_unknown q ≡ true) rs → zones_where is_listed rs ≡ []
zones_where-unknown [] h = refl
zones_where-unknown (q ∷ rs) h = ground (arith, zones_where-unknown rs h.1)

transition_to-cleared :
    (r : IpRecord)
    → is_currently_listed r ≡ true
    → (t : StateTransition) × (transition_to r [] ≡ some t)
      × (t.previous_state ≡ listed)
      × (t.new_state ≡ clean)
      × (t.listed_zones ≡ [])
unfolding transition_to
transition_to-cleared r h = elim (Option-cases (transition_to r [])) [
  | inl e ↦ absurd (ground arith)
  | inr (t, e) ↦ (t, e, ground arith, ground arith, ground arith)
]

-- A listed record whose checks all fail goes to CLEAN.
pub determine-unknown_only :
    (r : IpRecord) (rs : List DnsResult)
    → is_currently_listed r ≡ true
    → All (λ q. is_unknown q ≡ true) rs
    → (t : StateTransition) × (determine_state_transition r rs ≡ some t)
      × (t.previous_state ≡ listed)
      × (t.new_state ≡ clean)
      × (t.listed_zones ≡ [])
unfolding determine_state_transition sorted sort_by
determine-unknown_only r rs h u =
    rw (aggregate-listed rs ∙ ap sorted (zones_where-unknown rs u)) (transition_to-cleared r h)
