-- ===== src/Main/Convergence.antt =====
-- One run brings the row of its record to what DNS says, and the next run changes nothing.
use mathlib.Core.Path.{subst}
use mathlib.Core.Bool.{false≢true}
use mathlib.Core.Option.{some-ne-none}
use postal_dnsbl_monitor.Common.{
  Str, ◌≡◌, refl, sym, ap, ◌∙◌, Bool, true, false, Option, none, some, List, [], ◌∷◌, arith, All,
  SameTexts, contains, Bool-cases, inl, inr,
}
use postal_dnsbl_monitor.Common.Sorting.{sorted}
use postal_dnsbl_monitor.Common.Sorting.Laws.{contains-sorted}
use postal_dnsbl_monitor.Config.{Config}
use postal_dnsbl_monitor.Models.IpRecord.{
  IpRecord, zones_of, non_empty, listed-non_empty, get_listed_zones,
}
use postal_dnsbl_monitor.Models.StateTransition.{
  StateTransition, ListingState, clean, listed, state_of, transition_to,
}
use postal_dnsbl_monitor.Models.StateTransition.Decision.{
  transition_to-none_iff, transition_to-Describes, SameTexts-non_empty,
}
use postal_dnsbl_monitor.Services.Database.{
  Row, Db, to_record, joined, or_else, or_empty, priority_or_100,
}
use postal_dnsbl_monitor.Services.Database.Updates.{
  up, find_row, update_ip_listed-row, update_ip_clean-row, update_ip_zone_change-row,
}
use postal_dnsbl_monitor.Services.Database.Zones.{
  Proper, zones_of-joined, joined-sorted, joined-nil,
}
use postal_dnsbl_monitor.Services.JiraClient.{JiraServer}
use postal_dnsbl_monitor.Main.Frames.{db_by_states, db_after, db_after-wet}

-- What a row has become, if the zones `zones` list its address now: it names them; if it is newly
-- listed it has the listed priority and a backup, if it is clean again the restored priority and no
-- backup, and otherwise both as before.
pub record Reflects (config : Config) (zones : List Str) (row row' : Row) : Type 0 where
  pub names : SameTexts (zones_of (or_empty row'.blocking_lists)) zones
  pub newly :
      or_empty row.blocking_lists ≡ []
      → non_empty zones ≡ true
      → (row'.priority ≡ some config.listed_priority)
        × (row'.old_priority ≡ some (or_else row.old_priority (priority_or_100 row.priority)))
  pub cleared :
      non_empty (or_empty row.blocking_lists) ≡ true
      → zones ≡ []
      → (row'.priority ≡ some (or_else row.old_priority config.clean_fallback_priority))
        × (row'.old_priority ≡ none)
  pub kept :
      non_empty (or_empty row.blocking_lists) ≡ non_empty zones
      → (row'.priority ≡ row.priority) × (row'.old_priority ≡ row.old_priority)
  pub present : (s : Str) × (row'.blocking_lists ≡ some s)

module _ (J : JiraServer) (same : Str → Str → Bool) (config : Config) (ip : Str) (table : List Row)
    (row : Row) (s : Str) (found : find_row row.id table ≡ some row)
    (text : row.blocking_lists ≡ some s) (zones : List Str) (proper : All Proper zones)
    (collation : same s (joined zones) ≡ true → s ≡ joined zones) where
  abbrev pub r : IpRecord
  r = to_record row ip

  -- The row under the update that the two states call for.
  abbrev Becomes : ListingState → ListingState → Type 0
  Becomes a b =
      (row' : Row) × (find_row row.id
          (db_by_states J same config a b r (sorted zones) (up table)).table
        ≡ some row')
      × Reflects config zones row row'

  -- The zones of the row change, so the column does, also for the collation.
  differs : ¬ (SameTexts (zones_of s) zones) → same s (joined zones) ≡ false
  differs other = elim (Bool-cases (same s (joined zones))) [
    | inl e ↦ absurd (
        other (
          subst (λ t. SameTexts (zones_of t) zones) (sym (collation e))
            (zones_of-joined zones proper)))
    | inr e ↦ e
  ]

  names_joined : SameTexts (zones_of (joined (sorted zones))) zones
  names_joined = rw joined-sorted (zones_of-joined zones proper)

  stored : non_empty (or_empty row.blocking_lists) ≡ non_empty s
  stored = ap (λ (o : Option Str). non_empty (or_empty o)) text

  Becomes-listed :
      ¬ (SameTexts (zones_of s) zones)
      → non_empty s ≡ false
      → non_empty zones ≡ true
      → Becomes clean listed
  unfolding to_record
  Becomes-listed other e f = (
    _,
    update_ip_listed-row same row.id ip _ _ (sorted zones) table row found text
        (rw joined-sorted (differs other)),
    record {
      names = names_joined;
      newly = λ _ _. (refl, refl);
      cleared = λ h _. absurd (false≢true (sym e ∙ sym stored ∙ h));
      kept = λ h. absurd (false≢true (sym e ∙ sym stored ∙ h ∙ f));
      present = (joined (sorted zones), refl);
    },
  )

  Becomes-clean :
      ¬ (SameTexts (zones_of s) zones) → non_empty s ≡ true → zones ≡ [] → Becomes listed clean
  unfolding to_record
  Becomes-clean other e f = (
    _,
    update_ip_clean-row same row.id ip _ _ table row found text
        (subst (λ t. same s t ≡ false) (ap joined f ∙ joined-nil) (differs other)),
    record {
      names = subst (λ zs. SameTexts (zones_of []) zs) (sym f) (unfold zones_of in λ z. refl);
      newly = λ h _. absurd (false≢true (sym (ap non_empty h) ∙ stored ∙ e));
      cleared = λ _ _. (refl, refl);
      kept = λ h. absurd (false≢true (sym (ap non_empty f) ∙ sym h ∙ stored ∙ e));
      present = ([], refl);
    },
  )

  Becomes-changed :
      ¬ (SameTexts (zones_of s) zones)
      → non_empty s ≡ true
      → non_empty zones ≡ true
      → Becomes listed listed
  unfolding to_record
  Becomes-changed other e f = (
    _,
    update_ip_zone_change-row same row.id ip (sorted zones) table row found text
        (rw joined-sorted (differs other)),
    record {
      names = names_joined;
      newly = λ h _. absurd (false≢true (sym (ap non_empty h) ∙ stored ∙ e));
      cleared = λ _ h. absurd (false≢true (sym (ap non_empty h) ∙ f));
      kept = λ _. (refl, refl);
      present = (joined (sorted zones), refl);
    },
  )

  stays : SameTexts (zones_of s) zones → Reflects config zones row row
  stays same_zones = record {
    names = subst (λ t. SameTexts (zones_of t) zones) (sym (ap or_empty text)) same_zones;
    newly = λ h f. absurd (false≢true (sym (ap non_empty h) ∙ stored ∙ ends ∙ f));
    cleared = λ h f. absurd (false≢true (sym (ap non_empty f) ∙ sym ends ∙ sym stored ∙ h));
    kept = λ _. (refl, refl);
    present = (s, text);
  }
    where
      ends : non_empty s ≡ non_empty zones
      ends = sym (listed-non_empty s) ∙ SameTexts-non_empty (zones_of s) zones same_zones

  becomes :
      (a b : ListingState)
      → ¬ (SameTexts (zones_of s) zones)
      → a ≡ state_of (non_empty s)
      → b ≡ state_of (non_empty zones)
      → Becomes a b
  becomes clean listed other e f = Becomes-listed other (ground arith) (ground arith)
  becomes listed clean other e f =
      Becomes-clean other (ground arith) (empty_of zones (ground arith))
    where
      empty_of : (zs : List Str) → non_empty zs ≡ false → zs ≡ []
      empty_of [] h = refl
      empty_of (z ∷ zs) h = cc
  becomes listed listed other e f = Becomes-changed other (ground arith) (ground arith)
  becomes clean clean other e f = absurd (other (nothing s zones (ground arith) (ground arith)))
    where
      nothing :
          (t : Str) (zs : List Str)
          → non_empty t ≡ false
          → non_empty zs ≡ false
          → SameTexts (zones_of t) zs
      nothing [] [] h k = unfold zones_of in λ z. refl
      nothing (c ∷ t) zs h k = cc
      nothing [] (z ∷ zs) h k = cc

  named : SameTexts (get_listed_zones r) (sorted zones) → SameTexts (zones_of s) zones
  unfolding get_listed_zones to_record
  named h z =
      ap (λ (o : Option Str). contains (zones_of (or_empty o)) z) (sym text)
      ∙ h z
      ∙ contains-sorted zones z

  named_back : SameTexts (zones_of s) zones → SameTexts (get_listed_zones r) (sorted zones)
  unfolding get_listed_zones to_record
  named_back h z =
      ap (λ (o : Option Str). contains (zones_of (or_empty o)) z) text
      ∙ h z
      ∙ sym (contains-sorted zones z)

  pub row_after :
      (t : Option StateTransition)
      → config.dry_run ≡ false
      → transition_to r (sorted zones) ≡ t
      → (row' : Row) × (find_row row.id (db_after J same config r t (up table)).table ≡ some row')
        × Reflects config zones row row'
  row_after none wet e = (row, found, stays (named ((transition_to-none_iff r (sorted zones)).0 e)))
  row_after (some t) wet e =
      let d = transition_to-Describes r (sorted zones) e in
      let (row', at_row, reflects) =
        becomes t.previous_state t.new_state
          (λ same_zones.
            some-ne-none t
              (sym e ∙ (transition_to-none_iff r (sorted zones)).1 (named_back same_zones)))
          (d.previous ∙ ap state_of (unfold to_record in stored))
          (d.new
            ∙ ap state_of (SameTexts-non_empty (sorted zones) zones (contains-sorted zones))) in
      (
        row',
        ap (λ (db : Db). find_row row.id db.table)
              (db_after-wet J same config r t (up table) wet
                ∙ ap
                    (λ (zs : List Str).
                      db_by_states J same config t.previous_state t.new_state r zs (up table))
                    d.listed_zones)
            ∙ at_row,
        reflects,
      )
