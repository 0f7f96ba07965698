-- ===== src/Services/Database/Updates.antt =====
-- The three UPDATE statements, on a server that raises nothing.
use postal_dnsbl_monitor.Common.{
  ℕ, Str, ◌≡◌, refl, ◌∙◌, Bool, true, false, ◌&&◌, Option, none, some, List, [], ◌∷◌, arith, ◌==◌,
  if◌then◌else◌,
}
use postal_dnsbl_monitor.Common.Int.{ℤ}
use postal_dnsbl_monitor.Common.Exec.{ok, ◌>>◌}
use postal_dnsbl_monitor.Services.Database.{
  Row, Db, matches, differs, joined, rows_matched, rows_updated, update, to_record, priority_or_100,
  or_else, update_ip_listed, update_ip_clean, update_ip_zone_change, get_db_connection,
  listed_event, change_event, clean_event,
}

-- A server that raises nothing.
abbrev pub up : List Row → Db
up table = record { table = table; dsn_error = none; faults = [] }

-- The row of an id.
unfoldable pub find_row : ℕ → List Row → Option Row
find_row id [] = none
find_row id (row ∷ rows) = if row.id == id then some row else find_row id rows

abbrev pub changed : (Row → Bool) → (Row → Row) → Option Row → Option Row
changed test set_row none = none
changed test set_row (some row) = some (if test row then set_row row else row)

pub find_row-updated :
    (test : Row → Bool) (set_row : Row → Row) (id : ℕ) (rows : List Row)
    → ((row : Row) → (set_row row).id ≡ row.id)
    → find_row id (rows_updated test set_row rows) ≡ changed test set_row (find_row id rows)
unfolding find_row rows_updated
find_row-updated test set_row id [] h = refl
find_row-updated test set_row id (row ∷ rows) h =
    ground (arith, h row, find_row-updated test set_row id rows h)

-- The statement again, once no row matches it.
no_match :
    (test : Row → Bool) (set_row : Row → Row) (rows : List Row)
    → ((row : Row) → test (set_row row) ≡ false)
    → (rows_matched test (rows_updated test set_row rows) ≡ 0)
      × (rows_updated test set_row (rows_updated test set_row rows)
          ≡ rows_updated test set_row rows)
unfolding rows_matched rows_updated
no_match test set_row [] h = (refl, refl)
no_match test set_row (row ∷ rows) h = ground (arith, h row, no_match test set_row rows h)

update_twice :
    (test : Row → Bool) (set_row : Row → Row) (table : List Row)
    → ((row : Row) → test (set_row row) ≡ false)
    → (update test set_row >> update test set_row) (up table)
      ≡ (ok false, (update test set_row (up table)).1)
unfolding get_db_connection
update_twice test set_row table h = ground (arith, no_match test set_row table h)

module _ (same : Str → Str → Bool) (same_refl : (s : Str) → same s s ≡ true) where
  not_differs : (id : ℕ) (row : Row) (t : Str) → (row.id == id && differs same (some t) t) ≡ false
  unfolding differs
  not_differs id row t = ground (arith, same_refl t)

  -- Each of the three updates is idempotent: sent again with the same arguments, to a server that
  -- raises nothing, it matches no row, returns False and leaves the table as the first one did.
  pub updates_idempotent :
      (id : ℕ) (ip : Str) (p lp : ℤ) (old : Option ℤ) (zones : List Str) (table : List Row)
      → ((update_ip_listed same id ip p zones lp >> update_ip_listed same id ip p zones lp)
            (up table)
          ≡ (ok false, (update_ip_listed same id ip p zones lp (up table)).1))
        × ((update_ip_clean same id ip old p >> update_ip_clean same id ip old p) (up table)
            ≡ (ok false, (update_ip_clean same id ip old p (up table)).1))
        × ((update_ip_zone_change same id ip zones >> update_ip_zone_change same id ip zones)
              (up table)
            ≡ (ok false, (update_ip_zone_change same id ip zones (up table)).1))
  unfolding update_ip_listed update_ip_clean update_ip_zone_change
  updates_idempotent id ip p lp old zones table = (
    update_twice _ _ table (λ row. not_differs id row (joined zones)),
    update_twice _ _ table (λ row. not_differs id row []),
    update_twice _ _ table (λ row. not_differs id row (joined zones)),
  )

module _ (same : Str → Str → Bool) where
  -- A row whose blockingLists is NULL is never changed: a comparison with NULL selects no row.
  pub null_row_unchanged :
      (id : ℕ) (ip : Str) (p lp : ℤ) (old : Option ℤ) (zones : List Str) (table : List Row)
      (row : Row)
      → find_row id table ≡ some row
      → row.blocking_lists ≡ none
      → (find_row id (update_ip_listed same id ip p zones lp (up table)).1.table ≡ some row)
        × (find_row id (update_ip_clean same id ip old p (up table)).1.table ≡ some row)
        × (find_row id (update_ip_zone_change same id ip zones (up table)).1.table ≡ some row)
  unfolding update_ip_listed update_ip_clean update_ip_zone_change differs
  null_row_unchanged id ip p lp old zones table row found null = (
    find_row-updated (matches same id (joined zones)) _ id table (λ r. refl) ∙ ground arith,
    find_row-updated (matches same id []) _ id table (λ r. refl) ∙ ground arith,
    find_row-updated (matches same id (joined zones)) _ id table (λ r. refl) ∙ ground arith,
  )

  pub find_row-id :
      (id : ℕ) (table : List Row) (row : Row) → find_row id table ≡ some row → (row.id == id) ≡ true
  unfolding find_row
  find_row-id id [] row h = cc
  find_row-id id (r ∷ table) row h = ground (arith, find_row-id id table row)

  -- `update_ip_listed` on a row that its record shows: the row is throttled and names the zones;
  -- a backup of the priority that is there stays, and otherwise the record's priority is backed up.
  pub update_ip_listed-row :
      (id : ℕ) (ip : Str) (p lp : ℤ) (zones : List Str) (table : List Row) (row : Row) {s : Str}
      → find_row id table ≡ some row
      → row.blocking_lists ≡ some s
      → same s (joined zones) ≡ false
      → find_row id (update_ip_listed same id ip p zones lp (up table)).1.table
        ≡ some (record row {
          priority = some lp;
          old_priority = some (or_else row.old_priority p);
          blocking_lists = some (joined zones);
          last_event = some (listed_event (joined zones));
        })
  unfolding update_ip_listed differs
  update_ip_listed-row id ip p lp zones table row found text other =
      find_row-updated (matches same id (joined zones)) _ id table (λ r. refl)
      ∙ ground (arith, find_row-id id table row found)

  pub update_ip_clean-row :
      (id : ℕ) (ip : Str) (old : Option ℤ) (fallback : ℤ) (table : List Row) (row : Row) {s : Str}
      → find_row id table ≡ some row
      → row.blocking_lists ≡ some s
      → same s [] ≡ false
      → find_row id (update_ip_clean same id ip old fallback (up table)).1.table
        ≡ some (record row {
          priority = some (or_else old fallback);
          old_priority = none;
          blocking_lists = some [];
          last_event = some clean_event;
        })
  unfolding update_ip_clean differs
  update_ip_clean-row id ip old fallback table row found text other =
      find_row-updated (matches same id []) _ id table (λ r. refl)
      ∙ ground (arith, find_row-id id table row found)

  pub update_ip_zone_change-row :
      (id : ℕ) (ip : Str) (zones : List Str) (table : List Row) (row : Row) {s : Str}
      → find_row id table ≡ some row
      → row.blocking_lists ≡ some s
      → same s (joined zones) ≡ false
      → find_row id (update_ip_zone_change same id ip zones (up table)).1.table
        ≡ some (record row {
          blocking_lists = some (joined zones);
          last_event = some (change_event (joined zones));
        })
  unfolding update_ip_zone_change differs
  update_ip_zone_change-row id ip zones table row found text other =
      find_row-updated (matches same id (joined zones)) _ id table (λ r. refl)
      ∙ ground (arith, find_row-id id table row found)

  -- A clean row that is listed and then cleaned, each time with the arguments that `process_ip`
  -- takes from its record, has in the end the priority that its record showed, with no backup and
  -- no zone, whatever the listed and the fallback priority. The record shows 100 for a priority
  -- that is NULL or 0, so a row of priority 0 ends at 100.
  pub list_then_clean :
      (table : List Row) (row : Row) (ip : Str) (lp fallback : ℤ) (zones : List Str)
      → find_row row.id table ≡ some row
      → row.blocking_lists ≡ some []
      → row.old_priority ≡ none
      → same [] (joined zones) ≡ false
      → same (joined zones) [] ≡ false
      → let before = to_record row ip in
        let listed =
          (update_ip_listed same row.id ip before.priority zones lp (up table)).1.table in
        (row' : Row) × (find_row row.id listed ≡ some row')
        × (row'.priority ≡ some lp)
        × ((to_record row' ip).blocking_lists ≡ joined zones)
        × (find_row row.id
              (update_ip_clean same row.id ip
                (to_record row' ip).old_priority
                fallback
                (up listed)).1.table
            ≡ some (record row {
              priority = some (priority_or_100 row.priority);
              old_priority = none;
              blocking_lists = some [];
              last_event = some clean_event;
            }))
  unfolding to_record
  list_then_clean table row ip lp fallback zones found empty bare d d' =
      let step =
        update_ip_listed-row row.id ip (priority_or_100 row.priority) lp zones table row found empty
          d in
      (
        _,
        step,
        refl,
        refl,
        update_ip_clean-row row.id ip _ fallback _ _ step refl d' ∙ ground arith,
      )
