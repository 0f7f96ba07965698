-- ===== src/Services/Database/Edits.antt =====
-- An UPDATE, or the reading of the records, over any server: its connection may raise at any step,
-- and commits it or not.
use postal_dnsbl_monitor.Common.{
  ℕ, ltb, ◌≡◌, refl, ◌∙◌, ◌⊎◌, inl, inr, Bool, true, Option, none, some, List, ap, Bool-cases,
}
use postal_dnsbl_monitor.Common.Exec.{Exec, Exn, Result, ok, err}
use postal_dnsbl_monitor.Models.IpRecord.{IpRecord}
use postal_dnsbl_monitor.Services.Database.{
  Row, Db, Faults, update, execute, get_db_connection, rows_updated, rows_matched, connected,
  transaction, committed, closed, opened, next_faults, get_all_ips, records_of, order_by_id,
}
use postal_dnsbl_monitor.Services.Database.Updates.{find_row, find_row-updated}

module _ {A : Type 0} (f : Faults) (before : List Row) where
  committed-table :
      (x : Option Exn) (out : Result A × List Row)
      → ((committed f before x out).1 ≡ before) ⊎ ((committed f before x out).1 ≡ out.1)
  committed-table x (err e, table) = inl refl
  committed-table (some e) (ok a, table) = inl refl
  committed-table none (ok a, table) = inr refl

  transaction-table :
      (x : Option Exn) (body : Exec (List Row) A)
      → ((transaction f x body before).1 ≡ before)
        ⊎ ((transaction f x body before).1 ≡ (body before).1)
  transaction-table (some e) body = inl refl
  transaction-table none body = committed-table f.commit (body before)

  closed-table : (x : Option Exn) (out : Result A × List Row) → (closed x out).1 ≡ out.1
  closed-table none out = refl
  closed-table (some e) (r, table) = refl

  connected-table :
      (x : Option Exn) (body : Exec (List Row) A)
      → ((connected f x body before).1 ≡ before) ⊎ ((connected f x body before).1 ≡ (body before).1)
  connected-table (some e) body = inl refl
  connected-table none body =
      rw (closed-table f.close (transaction f f.session body before))
        (transaction-table f.session body)

execute-table :
    {A : Type 0} (statement : Exec (List Row) A) (f : Faults) (x : Option Exn) (table : List Row)
    → f.execute ≡ x
    → ((execute statement f table).1 ≡ table)
      ⊎ ((execute statement f table).1 ≡ (statement table).1)
execute-table statement f none table e = rw e (inr refl)
execute-table statement f (some x) table e = rw e (inl refl)

-- An UPDATE changes the table as it says, or not at all.
update-table :
    (test : Row → Bool) (set_row : Row → Row) (db : Db)
    → ((update test set_row db).1.table ≡ db.table)
      ⊎ ((update test set_row db).1.table ≡ rows_updated test set_row db.table)
unfolding get_db_connection
update-table test set_row db =
    let f = next_faults db.faults in
    let statement : Exec (List Row) Bool =
      λ table. (ok (ltb 0 (rows_matched test table)), rows_updated test set_row table) in
    elim (connected-table f db.table (opened db.dsn_error f.connect) (execute statement f)) [
      | inl unchanged ↦ inl unchanged
      | inr done ↦ elim (execute-table statement f f.execute db.table refl) [
        | inl skipped ↦ inl (done ∙ skipped)
        | inr ran ↦ inr (done ∙ ran)
      ]
    ]

-- A property that the row of an id has, and keeps where the UPDATE matches it, holds of the row
-- that stands there afterwards.
pub update-find_row :
    (P : Row → Type 0) (test : Row → Bool) (set_row : Row → Row) (id : ℕ) (db : Db) (row : Row)
    → ((r : Row) → (set_row r).id ≡ r.id)
    → find_row id db.table ≡ some row
    → P row
    → (test row ≡ true → P (set_row row))
    → (row' : Row) × (find_row id (update test set_row db).1.table ≡ some row') × P row'
update-find_row P test set_row id db row keeps found p q = elim (update-table test set_row db) [
  | inl unchanged ↦ (row, ap (find_row id) unchanged ∙ found, p)
  | inr done ↦
      let at_row = ap (find_row id) done ∙ find_row-updated test set_row id db.table keeps in
      elim (Bool-cases (test row)) [
        | inl yes_row ↦ (set_row row, at_row ∙ rw (found, yes_row) refl, q yes_row)
        | inr no_row ↦ (row, at_row ∙ rw (found, no_row) refl, p)
      ]
]

-- Reading the records leaves the table alone.
pub get_all_ips-table : (db : Db) → (get_all_ips db).1.table ≡ db.table
unfolding get_all_ips get_db_connection
get_all_ips-table db =
    let f = next_faults db.faults in
    let statement : Exec (List Row) (List IpRecord) =
      λ table. (ok (records_of (order_by_id table)), table) in
    elim (connected-table f db.table (opened db.dsn_error f.connect) (execute statement f)) [
      | inl unchanged ↦ unchanged
      | inr done ↦ elim (execute-table statement f f.execute db.table refl) [
        | inl skipped ↦ done ∙ skipped
        | inr ran ↦ done ∙ ran
      ]
    ]
