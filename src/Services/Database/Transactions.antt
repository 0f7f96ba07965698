-- ===== src/Services/Database/Transactions.antt =====
-- A connection commits the whole of its block or nothing of it.
use postal_dnsbl_monitor.Common.{◌≡◌, ◌⊎◌, inl, inr, refl, Option, none, some, List}
use postal_dnsbl_monitor.Common.Exec.{Exec, Exn, Result, ok, err}
use postal_dnsbl_monitor.Services.Database.{
  Row, Faults, Db, next_faults, get_db_connection, committed, transaction, closed, connected,
  opened,
}

-- How a connection over the table `before` may end: it returns what the block returned and keeps its
-- table, and neither the commit nor the close raised; or it raises and the table is the old one; or
-- the block returned and its table was committed, and the close raised what is raised.
abbrev pub Atomic :
    {A : Type 0} → Faults → Result A × List Row → List Row → Result A × List Row → Type 0
Atomic f block before (ok a, table) = (block ≡ (ok a, table)) × (f.commit ≡ none) × (f.close ≡ none)
Atomic {A} f block before (err e, table) =
    (table ≡ before) ⊎ ((a : A) × (block ≡ (ok a, table)) × (f.commit ≡ none) × (f.close ≡ some e))

module _ {A : Type 0} (f : Faults) (before : List Row) where
  -- The same, before the close.
  abbrev Settled : Result A × List Row → Result A × List Row → Type 0
  Settled block (ok a, table) = (block ≡ (ok a, table)) × (f.commit ≡ none)
  Settled block (err e, table) = table ≡ before

  committed-Settled :
      (x : Option Exn) (out : Result A × List Row)
      → f.commit ≡ x
      → Settled out (committed f before x out)
  committed-Settled x (err e, table) h = refl
  committed-Settled (some e) (ok a, table) h = refl
  committed-Settled none (ok a, table) h = (refl, h)

  transaction-Settled :
      (x : Option Exn) (body : Exec (List Row) A)
      → Settled (body before) (transaction f x body before)
  transaction-Settled (some e) body = refl
  transaction-Settled none body = committed-Settled f.commit (body before) refl

  closed-Atomic :
      (x : Option Exn) (block out : Result A × List Row)
      → f.close ≡ x
      → Settled block out
      → Atomic f block before (closed x out)
  closed-Atomic none block (ok a, table) e h = (h.0, h.1, e)
  closed-Atomic none block (err d, table) e h = inl h
  closed-Atomic (some x) block (ok a, table) e h = inr (a, h.0, h.1, e)
  closed-Atomic (some x) block (err d, table) e h = inl h

  connected-Atomic :
      (x : Option Exn) (body : Exec (List Row) A)
      → Atomic f (body before) before (connected f x body before)
  connected-Atomic (some e) body = inl refl
  connected-Atomic none body =
      closed-Atomic f.close (body before) (transaction f f.session body before) refl
        (transaction-Settled f.session body)

-- Whatever the parsing of the DSN, the connection, the session, the statements, the commit, the
-- rollback or the close raise, a block that returns from a connection has had its table committed,
-- with no exception of the commit or the close; and if the connection raises, it has changed
-- nothing, unless the block had returned, the commit had not raised, and what is raised is the
-- exception of the close.
pub get_db_connection-Atomic :
    {A : Type 0} (body : Faults → Exec (List Row) A) (db : Db)
    → Atomic
        (next_faults db.faults)
        (body (next_faults db.faults) db.table)
        db.table
        ((get_db_connection body db).0, (get_db_connection body db).1.table)
unfolding get_db_connection
get_db_connection-Atomic body db =
    let f = next_faults db.faults in
    connected-Atomic f db.table (opened db.dsn_error f.connect) (body f)
