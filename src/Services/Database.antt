-- ===== src/Services/Database.antt =====
-- src/services/database.py: the table postal.ip_addresses and the statements that the service sends.
-- The MySQL server is a parameter: `same` is the equality of its collation (in a comparison with
-- NULL the row does not match), and each connection has the exceptions that the server and the
-- driver raise at its steps. A row count is that of the rows that match; each statement changes
-- every row that it matches, so the count of changed rows is the same. Log lines and the taking
-- apart of the DSN are not modelled.
pub mod Transactions
pub mod Updates
pub mod Zones
pub mod Edits
use postal_dnsbl_monitor.Common.{
  ℕ, zero, suc, ◌+◌, Str, codes, Bool, true, false, not, ◌&&◌, Option, none, some, List, [], ◌∷◌,
  ◌++◌, ◌==◌, ltb, leb, if◌then◌else◌,
}
use postal_dnsbl_monitor.Common.Int.{ℤ, pos, is_zero}
use postal_dnsbl_monitor.Common.Split.{join}
use postal_dnsbl_monitor.Common.Sorting.{sorted}
use postal_dnsbl_monitor.Common.Exec.{Exec, Exn, Result, ok, err}
use postal_dnsbl_monitor.Models.IpRecord.{IpRecord, comma}

pub record Row : Type 0 where
  pub id : ℕ
  pub ipv4 : Option Str
  pub priority : Option ℤ
  pub old_priority : Option ℤ
  pub blocking_lists : Option Str
  pub last_event : Option Str

-- The exceptions of one connection, at each step that may raise.
pub record Faults : Type 0 where
  pub connect : Option Exn
  pub session : Option Exn
  pub execute : Option Exn
  pub commit : Option Exn
  pub rollback : Option Exn
  pub close : Option Exn

abbrev pub no_faults : Faults
no_faults = record {
  connect = none;
  session = none;
  execute = none;
  commit = none;
  rollback = none;
  close = none;
}

-- The table; what `urlparse` and `parsed.port` raise for the DSN of the service; and the faults of
-- MySQL in the calls of `get_db_connection` to come, none once the list is used up.
pub record Db : Type 0 where
  pub table : List Row
  pub dsn_error : Option Exn
  pub faults : List Faults

abbrev pub next_faults : List Faults → Faults
next_faults [] = no_faults
next_faults (f ∷ fs) = f

abbrev pub later_faults : List Faults → List Faults
later_faults [] = []
later_faults (f ∷ fs) = fs

-- `raise` after an exception of the handler itself
abbrev instead : Option Exn → Exn → Exn
instead none e = e
instead (some x) e = x

-- the parsing of the DSN comes before the connection
abbrev pub opened : Option Exn → Option Exn → Option Exn
opened (some e) connect = some e
opened none connect = connect

module _ {A : Type 0} where
  -- `conn.rollback(); raise`
  abbrev rolled_back : Faults → List Row → Exn → Result A × List Row
  rolled_back f before e = (err (instead f.rollback e), before)

  -- the `yield` and the `commit` behind it
  abbrev committed : Faults → List Row → Option Exn → Result A × List Row → Result A × List Row
  committed f before x (err e, table) = rolled_back f before e
  committed f before (some e) (ok a, table) = rolled_back f before e
  committed f before none (ok a, table) = (ok a, table)

  -- the `try` with its `except`
  abbrev transaction : Faults → Option Exn → Exec (List Row) A → List Row → Result A × List Row
  transaction f (some e) body before = rolled_back f before e
  transaction f none body before = committed f before f.commit (body before)

  -- the `finally`
  abbrev closed : Option Exn → Result A × List Row → Result A × List Row
  closed none out = out
  closed (some e) (r, table) = (err e, table)

  abbrev connected : Faults → Option Exn → Exec (List Row) A → List Row → Result A × List Row
  connected f (some e) body before = (err e, before)
  connected f none body before = closed f.close (transaction f f.session body before)

  -- `with get_db_connection(dsn) as conn: body`
  unfoldable pub get_db_connection : (Faults → Exec (List Row) A) → Exec Db A
  get_db_connection body db =
      let f = next_faults db.faults in
      let (r, table) = connected f (opened db.dsn_error f.connect) (body f) db.table in
      (r, record db { table = table; faults = later_faults db.faults })

  -- `cur.execute(statement)`
  abbrev pub execute : Exec (List Row) A → Faults → Exec (List Row) A
  execute statement f table = elim f.execute [ none ↦ statement table | some e ↦ (err e, table) ]

-- `row["priority"] or 100`
abbrev pub priority_or_100 : Option ℤ → ℤ
priority_or_100 none = pos 100
priority_or_100 (some p) = if is_zero p then pos 100 else p

-- `row["blocking_lists"] or ""`
abbrev pub or_empty : Option Str → Str
or_empty none = []
or_empty (some s) = s

unfoldable pub to_record : Row → Str → IpRecord
to_record row ip = record {
  id = row.id;
  ip = ip;
  priority = priority_or_100 row.priority;
  old_priority = row.old_priority;
  blocking_lists = or_empty row.blocking_lists;
  last_event = row.last_event;
}

abbrev pub add_record : Row → Option Str → List IpRecord → List IpRecord
add_record row none records = records
add_record row (some ip) records = to_record row ip ∷ records

-- `WHERE ipv4 IS NOT NULL`, and the records of the rows
unfoldable pub records_of : List Row → List IpRecord
records_of [] = []
records_of (row ∷ rows) = add_record row row.ipv4 (records_of rows)

unfoldable pub insert_by_id : Row → List Row → List Row
insert_by_id r [] = r ∷ []
insert_by_id r (s ∷ rows) =
    let rest = insert_by_id r rows in if leb r.id s.id then r ∷ s ∷ rows else s ∷ rest

-- `ORDER BY id`
unfoldable pub order_by_id : List Row → List Row
order_by_id [] = []
order_by_id (r ∷ rows) = insert_by_id r (order_by_id rows)

unfoldable pub get_all_ips : Exec Db (List IpRecord)
unfolding get_db_connection
get_all_ips = get_db_connection (execute (λ table. (ok (records_of (order_by_id table)), table)))

-- the rows that an UPDATE matches, and the table after it
unfoldable pub rows_matched : (Row → Bool) → List Row → ℕ
rows_matched test [] = 0
rows_matched test (row ∷ rows) = (if test row then 1 else 0) + rows_matched test rows

unfoldable pub rows_updated : (Row → Bool) → (Row → Row) → List Row → List Row
rows_updated test set_row [] = []
rows_updated test set_row (row ∷ rows) =
    (if test row then set_row row else row) ∷ rows_updated test set_row rows

-- `cur.execute("UPDATE …")` and `cur.rowcount > 0`
abbrev pub update : (Row → Bool) → (Row → Row) → Exec Db Bool
update test set_row =
    get_db_connection
      (execute (λ table. (ok (ltb 0 (rows_matched test table)), rows_updated test set_row table)))

-- `",".join(sorted(zones))`
unfoldable pub joined : List Str → Str
joined zones = join (comma ∷ []) (sorted zones)

unfoldable pub listed_event : Str → Str
listed_event zones = codes "new block from list(s) " ++ zones

unfoldable pub change_event : Str → Str
change_event zones = codes "blocking list change: " ++ zones

unfoldable pub clean_event : Str
clean_event = codes "block removed"

-- `CASE WHEN oldPriority IS NULL THEN %s ELSE oldPriority END`
abbrev pub or_else : Option ℤ → ℤ → ℤ
or_else none p = p
or_else (some q) p = q

module _ (same : Str → Str → Bool) where
  -- `blockingLists != %s`
  unfoldable pub differs : Option Str → Str → Bool
  differs none t = false
  differs (some s) t = not (same s t)

  -- `WHERE id = %s AND blockingLists != %s`
  abbrev pub matches : ℕ → Str → Row → Bool
  matches id t row = row.id == id && differs row.blocking_lists t

  unfoldable pub update_ip_listed : ℕ → Str → ℤ → List Str → ℤ → Exec Db Bool
  unfolding get_db_connection
  update_ip_listed ip_id ip_address current_priority zones listed_priority =
      let sorted_zones = joined zones in
      update (matches ip_id sorted_zones) (λ row. record row {
        priority = some listed_priority;
        old_priority = some (or_else row.old_priority current_priority);
        blocking_lists = some sorted_zones;
        last_event = some (listed_event sorted_zones);
      })

  unfoldable pub update_ip_clean : ℕ → Str → Option ℤ → ℤ → Exec Db Bool
  unfolding get_db_connection
  update_ip_clean ip_id ip_address old_priority clean_fallback =
      let restore_priority = or_else old_priority clean_fallback in
      update (matches ip_id []) (λ row. record row {
        priority = some restore_priority;
        old_priority = none;
        blocking_lists = some [];
        last_event = some clean_event;
      })

  unfoldable pub update_ip_zone_change : ℕ → Str → List Str → Exec Db Bool
  unfolding get_db_connection
  update_ip_zone_change ip_id ip_address zones =
      let sorted_zones = joined zones in
      update (matches ip_id sorted_zones) (λ row. record row {
        blocking_lists = some sorted_zones;
        last_event = some (change_event sorted_zones);
      })
