-- ===== src/Main/Lifecycle.antt =====
-- The life of a row over any number of runs: its priority is never lost.
use mathlib.Core.Path.{subst}
use postal_dnsbl_monitor.Common.{
  ℕ, Str, ◌≡◌, ◌≢◌, refl, sym, ap, ◌∙◌, Bool, true, false, Option, none, some, List, [], arith, All,
  if◌then◌else◌,
}
use postal_dnsbl_monitor.Common.Int.{ℤ, is_zero}
use postal_dnsbl_monitor.Common.Sorting.{sorted}
use postal_dnsbl_monitor.Common.Sorting.Laws.{contains-sorted}
use postal_dnsbl_monitor.Config.{Config}
use postal_dnsbl_monitor.Models.IpRecord.{IpRecord, non_empty, zones_of, listed-non_empty}
use postal_dnsbl_monitor.Models.StateTransition.{
  StateTransition, ListingState, clean, listed, state_of, transition_to,
}
use postal_dnsbl_monitor.Models.StateTransition.Decision.{
  transition_to-Describes, SameTexts-non_empty,
}
use postal_dnsbl_monitor.Services.Database.{
  Row, Db, to_record, joined, or_else, or_empty, priority_or_100, update_ip_listed, update_ip_clean,
  update_ip_zone_change, matches, update,
}
use postal_dnsbl_monitor.Services.Database.Updates.{find_row, find_row-id}
use postal_dnsbl_monitor.Services.Database.Edits.{update-find_row}
use postal_dnsbl_monitor.Services.Database.Zones.{Proper, zones_of-joined, joined-sorted}
use postal_dnsbl_monitor.Services.JiraClient.{JiraServer}
use postal_dnsbl_monitor.Main.Frames.{db_by_states, db_after}

-- The priorities of a row: listed, it has the listed priority and `p` as its backup; clean, it has
-- the priority `p` and no backup.
abbrev pub Priorities : Config → ℤ → Bool → Row → Type 0
Priorities config p true row =
    (row.priority ≡ some config.listed_priority) × (row.old_priority ≡ some p)
Priorities config p false row = (row.priority ≡ some p) × (row.old_priority ≡ none)

-- The row keeps the priority `p` that its owner gave it.
pub record Backed (config : Config) (p : ℤ) (row : Row) : Type 0 where
  pub text : (s : Str) × (row.blocking_lists ≡ some s)
  pub priorities : Priorities config p (non_empty (or_empty row.blocking_lists)) row

joined-non_empty :
    (zones : List Str) → All Proper zones → non_empty (joined zones) ≡ non_empty zones
joined-non_empty zones h =
    sym (listed-non_empty (joined zones))
    ∙ SameTexts-non_empty (zones_of (joined zones)) zones (zones_of-joined zones h)

state_of-inj : (b c : Bool) → state_of b ≡ state_of c → b ≡ c
state_of-inj true true e = refl
state_of-inj false false e = refl
state_of-inj true false e = cc
state_of-inj false true e = cc

named :
    (zones : List Str)
    → All Proper zones
    → listed ≡ state_of (non_empty zones)
    → non_empty (joined (sorted zones)) ≡ true
named zones h f =
    ap non_empty (joined-sorted zones) ∙ joined-non_empty zones h ∙ state_of-inj _ true (sym f)

module _ (config : Config) (p : ℤ) (proper : is_zero p ≡ false) where
  backed_up : or_else none (priority_or_100 (some p)) ≡ p
  backed_up = ground arith

  -- The row as the three updates set it.
  newly_listed :
      (row : Row) (text : Str) (event : Option Str)
      → Backed config p row
      → non_empty (or_empty row.blocking_lists) ≡ false
      → non_empty text ≡ true
      → Backed config p (record row {
        priority = some config.listed_priority;
        old_priority = some (or_else row.old_priority (priority_or_100 row.priority));
        blocking_lists = some text;
        last_event = event;
      })
  newly_listed row text event h e f =
      let before : Priorities config p false row =
        subst (λ b. Priorities config p b row) e h.priorities in
      record {
        text = (text, refl);
        priorities = rw f (refl, rw (before.0, before.1) (ap some backed_up));
      }

  newly_clean :
      (row : Row) (fallback : ℤ) (event : Option Str)
      → Backed config p row
      → non_empty (or_empty row.blocking_lists) ≡ true
      → Backed config p (record row {
        priority = some (or_else row.old_priority fallback);
        old_priority = none;
        blocking_lists = some [];
        last_event = event;
      })
  newly_clean row fallback event h e =
      let before : Priorities config p true row =
        subst (λ b. Priorities config p b row) e h.priorities in
      record { text = ([], refl); priorities = (rw before.1 refl, refl) }

  still_listed :
      (row : Row) (text : Str) (event : Option Str)
      → Backed config p row
      → non_empty (or_empty row.blocking_lists) ≡ true
      → non_empty text ≡ true
      → Backed config p (record row { blocking_lists = some text; last_event = event })
  still_listed row text event h e f =
      let before : Priorities config p true row =
        subst (λ b. Priorities config p b row) e h.priorities in
      record { text = (text, refl); priorities = rw f before }

  module _ (J : JiraServer) (same : Str → Str → Bool) (id : ℕ) where
    -- The row of the id is there, and keeps its priority.
    abbrev pub Kept : List Row → Type 0
    Kept table = (row : Row) × (find_row id table ≡ some row) × Backed config p row

    by_states-Kept :
        (a b : ListingState) (row : Row) (ip : Str) (zones : List Str) (db : Db)
        → find_row id db.table ≡ some row
        → Backed config p row
        → All Proper zones
        → a ≡ state_of (non_empty (or_empty row.blocking_lists))
        → b ≡ state_of (non_empty zones)
        → Kept (db_by_states J same config a b (to_record row ip) (sorted zones) db).table
    unfolding to_record update_ip_listed update_ip_clean update_ip_zone_change
    by_states-Kept clean listed row ip zones db found h proper_zones e f =
        update-find_row (Backed config p) (matches same row.id (joined (sorted zones))) _ id db row
          (λ r. refl) found h
          (λ matched.
            newly_listed row (joined (sorted zones)) _ h (state_of-inj _ false (sym e))
              (named zones proper_zones f))
    by_states-Kept listed clean row ip zones db found h proper_zones e f =
        update-find_row (Backed config p) (matches same row.id []) _ id db row (λ r. refl) found h
          (λ matched. newly_clean row _ _ h (state_of-inj _ true (sym e)))
    by_states-Kept listed listed row ip zones db found h proper_zones e f =
        update-find_row (Backed config p) (matches same row.id (joined (sorted zones))) _ id db row
          (λ r. refl) found h
          (λ matched.
            still_listed row (joined (sorted zones)) _ h (state_of-inj _ true (sym e))
              (named zones proper_zones f))
    by_states-Kept clean clean row ip zones db found h proper_zones e f = (row, found, h)

    unless_dry :
        (db db' : Db)
        → Kept db.table
        → Kept db'.table
        → Kept (if config.dry_run then db else db').table
    unless_dry db db' k k' = elim config.dry_run as (λ b. Kept (if b then db else db').table) [
      | true ↦ k
      | false ↦ k'
    ]

    -- A run over the record of the row.
    pub db_after-Kept :
        (row : Row) (ip : Str) (zones : List Str) (db : Db) (t : Option StateTransition)
        → find_row id db.table ≡ some row
        → Backed config p row
        → All Proper zones
        → transition_to (to_record row ip) (sorted zones) ≡ t
        → Kept (db_after J same config (to_record row ip) t db).table
    db_after-Kept row ip zones db none found h proper_zones e = (row, found, h)
    db_after-Kept row ip zones db (some t) found h proper_zones e =
        let d = transition_to-Describes (to_record row ip) (sorted zones) e in
        unless_dry db
          (db_by_states J same config t.previous_state t.new_state (to_record row ip) t.listed_zones
            db)
          (row, found, h)
          (subst
            (λ zs.
              Kept
                (db_by_states J same config t.previous_state t.new_state (to_record row ip) zs
                  db).table)
            (sym d.listed_zones)
            (by_states-Kept t.previous_state t.new_state row ip zones db found h proper_zones
              (d.previous ∙ unfold to_record in refl)
              (d.new
                ∙ ap state_of (SameTexts-non_empty (sorted zones) zones (contains-sorted zones)))))

    other_update :
        (r : IpRecord) (text : Str) (set_row : Row → Row) (db : Db)
        → ((row : Row) → (set_row row).id ≡ row.id)
        → r.id ≢ id
        → Kept db.table
        → Kept (update (matches same r.id text) set_row db).1.table
    other_update r text set_row db keeps other (row, found, h) =
        update-find_row (Backed config p) (matches same r.id text) set_row id db row keeps found h
          (λ matched. absurd (other (ground (arith, find_row-id same id db.table row found))))

    by_states-other :
        (a b : ListingState) (r : IpRecord) (zones : List Str) (db : Db)
        → r.id ≢ id
        → Kept db.table
        → Kept (db_by_states J same config a b r zones db).table
    unfolding update_ip_listed update_ip_clean update_ip_zone_change
    by_states-other clean listed r zones db other k =
        other_update r (joined zones) _ db (λ row. refl) other k
    by_states-other listed clean r zones db other k = other_update r [] _ db (λ row. refl) other k
    by_states-other listed listed r zones db other k =
        other_update r (joined zones) _ db (λ row. refl) other k
    by_states-other clean clean r zones db other k = k

    -- A run over any other record.
    pub db_after-other :
        (r : IpRecord) (t : Option StateTransition) (db : Db)
        → r.id ≢ id
        → Kept db.table
        → Kept (db_after J same config r t db).table
    db_after-other r none db other k = k
    db_after-other r (some t) db other k =
        unless_dry db (db_by_states J same config t.previous_state t.new_state r t.listed_zones db)
          k (by_states-other t.previous_state t.new_state r t.listed_zones db other k)
