-- ===== src/Models/StateTransition.antt =====
-- src/models/state_transition.py: what a record becomes under the results of a check. The source's
-- texts "CLEAN" and "LISTED" are the two constructors of `ListingState`.
pub mod Decision
pub mod Delta
use postal_dnsbl_monitor.Common.{
  ℕ, Str, Bool, true, false, ◌&&◌, Option, none, some, List, [], ◌∷◌, ◌++◌, map, if◌then◌else◌,
  select,
}
use postal_dnsbl_monitor.Common.Sorting.{sorted, to_set, difference, set_eq}
use postal_dnsbl_monitor.Models.DnsResult.{DnsResult, is_listed, is_unknown}
use postal_dnsbl_monitor.Models.IpRecord.{
  IpRecord, non_empty, is_currently_listed, get_listed_zones,
}

pub data ListingState : Type 0 where
  clean listed : ListingState

pub record ZoneDelta : Type 0 where
  pub added : List Str
  pub removed : List Str

pub record StateTransition : Type 0 where
  pub ip : Str
  pub previous_state : ListingState
  pub new_state : ListingState
  pub listed_zones : List Str
  pub zone_delta : ZoneDelta
  pub requires_update : Bool

-- the loop over the results, with its two lists
unfoldable pub aggregate_loop : List DnsResult → List Str → List Str → List Str × List Str
aggregate_loop [] listed_zones unknown_zones = (listed_zones, unknown_zones)
aggregate_loop (r ∷ rs) listed_zones unknown_zones =
    aggregate_loop rs (if is_listed r then listed_zones ++ (r.zone ∷ []) else listed_zones) (
      if is_listed r
      then unknown_zones
      else if is_unknown r
      then unknown_zones ++ (r.zone ∷ [])
      else unknown_zones)

unfoldable pub aggregate_dns_results : List DnsResult → List Str × List Str
unfolding aggregate_loop
aggregate_dns_results results =
    let (listed_zones, unknown_zones) = aggregate_loop results [] [] in
    (sorted listed_zones, sorted unknown_zones)

abbrev pub state_of : Bool → ListingState
state_of true = listed
state_of false = clean

abbrev pub state_eq : ListingState → ListingState → Bool
state_eq clean clean = true
state_eq listed listed = true
state_eq _ _ = false

unfoldable pub detect_zone_delta : List Str → List Str → ZoneDelta
detect_zone_delta current_zones new_zones =
    let current_set = to_set current_zones in
    let new_set = to_set new_zones in
    record {
      added = sorted (difference new_set current_set);
      removed = sorted (difference current_set new_set);
    }

-- `determine_state_transition` behind its call of `aggregate_dns_results`
unfoldable pub transition_to : IpRecord → List Str → Option StateTransition
transition_to ip_record listed_zones =
    let current_listed = is_currently_listed ip_record in
    let current_zones = to_set (get_listed_zones ip_record) in
    let new_zones = to_set listed_zones in
    let previous_state = state_of current_listed in
    let new_state = state_of (non_empty listed_zones) in
    if state_eq previous_state new_state && set_eq current_zones new_zones
    then none
    else some (record {
      ip = ip_record.ip;
      previous_state = previous_state;
      new_state = new_state;
      listed_zones = listed_zones;
      zone_delta = record {
        added = sorted (difference new_zones current_zones);
        removed = sorted (difference current_zones new_zones);
      };
      requires_update = true;
    })

unfoldable pub determine_state_transition : IpRecord → List DnsResult → Option StateTransition
unfolding transition_to
determine_state_transition ip_record dns_results =
    transition_to ip_record (aggregate_dns_results dns_results).0
