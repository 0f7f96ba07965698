-- ===== src/Main/History.antt =====
-- Any number of runs, over any records, under whatever MySQL, Jira and DNS do.
use mathlib.Core.Path.{subst}
use postal_dnsbl_monitor.Common.{
  ℕ, Str, ◌≡◌, ◌≢◌, sym, ap, ◌∙◌, Bool, false, Option, some, List, All,
}
use postal_dnsbl_monitor.Common.Int.{ℤ, is_zero}
use postal_dnsbl_monitor.Common.Exec.{Exn, Result, ok, err}
use postal_dnsbl_monitor.Config.{Config}
use postal_dnsbl_monitor.Models.IpRecord.{IpRecord}
use postal_dnsbl_monitor.Services.Database.{Row, to_record}
use postal_dnsbl_monitor.Services.Database.Updates.{find_row}
use postal_dnsbl_monitor.Services.Database.Zones.{Proper}
use postal_dnsbl_monitor.Services.DnsChecker.{Completion}
use postal_dnsbl_monitor.Services.DnsChecker.Results.{KnownZones}
use postal_dnsbl_monitor.Services.JiraClient.{JiraServer, JiraClient}
use postal_dnsbl_monitor.Main.{World, recovery}
use postal_dnsbl_monitor.Main.Frames.{db_after, Reaches}
use postal_dnsbl_monitor.Main.Refinement.{run, transition, process_ip-Reaches}
use postal_dnsbl_monitor.Main.Runs.{listing, transition-listing, Proper-listing}
use postal_dnsbl_monitor.Main.Lifecycle.{Backed, Kept, db_after-Kept, db_after-other}

same_row : {a b : Row} → some a ≡ some b → a ≡ b
same_row e = cc

-- What a run finds: the answers of DNS, the order and the times of the checks, and the world.
pub record Setting (J : JiraServer) : Type 0 where
  pub jira_client : Option JiraClient
  pub class_name : Exn → Str
  pub resolve : Str → ℕ → Result (List Str)
  pub message : Exn → Str
  pub dns_timeout : ℕ
  pub completions : List Completion
  pub now : ℕ
  pub world : World J.State

module _ (J : JiraServer) (same : Str → Str → Bool) (config : Config) where
  -- The table after a run over a record.
  abbrev pub table_after : IpRecord → Setting J → List Row
  table_after r x =
      (run J same config x.jira_client x.class_name x.resolve x.message x.dns_timeout r
        x.completions x.now x.world).1.db.table

  -- The tracker knows the zones that are checked, and they are not empty and hold no comma.
  abbrev pub Sound : Setting J → Type 0
  Sound x =
      KnownZones x.class_name x.resolve x.message x.completions x.world.tracker
      × All (λ c. Proper c.zone) x.completions

  -- One run, from a table to the next: over the record that the row of `id` gives, or over a record
  -- of any other id.
  pub data Visit (id : ℕ) (t u : List Row) : Type 0 where
    own :
        (row : Row) (ip : Str) (x : Setting J)
        → Sound x
        → x.world.db.table ≡ t
        → find_row id t ≡ some row
        → u ≡ table_after (to_record row ip) x
        → Visit id t u
    of_other :
        (r : IpRecord) (x : Setting J)
        → Sound x
        → x.world.db.table ≡ t
        → r.id ≢ id
        → u ≡ table_after r x
        → Visit id t u

  -- Any number of runs, one after the other.
  pub data History (id : ℕ) (t : List Row) : List Row → Type 0 where
    here : History id t t
    next : {u v : List Row} → History id t u → Visit id u v → History id t v

  reached :
      (P : List Row → Type 0) (r : IpRecord) (x : Setting J)
      → Sound x
      → P x.world.db.table
      → P
          (db_after J same config r
            (transition J same config x.jira_client x.class_name x.resolve x.message x.dns_timeout r
              x.completions)
            x.world.db).table
      → P (table_after r x)
  reached P r x sound before after = go (recovery J config x.jira_client r x.world).0 (
      process_ip-Reaches J same config x.jira_client x.class_name x.resolve x.message x.dns_timeout
        r x.completions x.now x.world sound.0)
    where
      go :
          (o : Result Bool)
          → Reaches J same config x.jira_client x.class_name x.resolve x.message x.dns_timeout r
              x.completions x.world o
              (run J same config x.jira_client x.class_name x.resolve x.message x.dns_timeout r
                x.completions x.now x.world)
          → P (table_after r x)
      go (err e) out = subst (λ db. P db.table) (sym out.1) before
      go (ok b) out = subst (λ db. P db.table) (sym out) after

  module _ (p : ℤ) (proper : is_zero p ≡ false) (id : ℕ) where
    Visit-Kept :
        {t u : List Row}
        → Visit id t u
        → Kept config p proper J same id t
        → Kept config p proper J same id u
    Visit-Kept (own row ip x sound at_start found e) (row₀, found₀, h) =
        subst (Kept config p proper J same id) (sym e) (
          reached (Kept config p proper J same id) (to_record row ip) x sound
            (subst (Kept config p proper J same id) (sym at_start) (row₀, found₀, h))
            (db_after-Kept config p proper J same id row ip
              (listing J same config x.jira_client x.class_name x.resolve x.message x.dns_timeout ip
                x.completions)
              x.world.db
              (transition J same config x.jira_client x.class_name x.resolve x.message x.dns_timeout
                (to_record row ip) x.completions)
              (ap (find_row id) at_start ∙ found)
              (subst (Backed config p) (same_row (sym found₀ ∙ found)) h)
              (Proper-listing J same config x.jira_client x.class_name x.resolve x.message
                x.dns_timeout ip x.completions sound.1)
              (unfold to_record in
                transition-listing J same config x.jira_client x.class_name x.resolve x.message
                  x.dns_timeout (to_record row ip) x.completions)))
    Visit-Kept (of_other r x sound at_start other e) k =
        subst (Kept config p proper J same id) (sym e) (
          reached (Kept config p proper J same id) r x sound
            (subst (Kept config p proper J same id) (sym at_start) k)
            (db_after-other config p proper J same id r
              (transition J same config x.jira_client x.class_name x.resolve x.message x.dns_timeout
                r x.completions)
              x.world.db other (subst (Kept config p proper J same id) (sym at_start) k)))

    -- From a table where the row of an id keeps a priority that is not 0, any number of runs over its
    -- own record as the row then stands and over the records of other ids, dry or not, in whatever
    -- way MySQL, Jira and DNS answer or raise, leads to a table where the row is there and keeps that
    -- priority: listed, it has the listed priority and the other as its backup, and clean, it has
    -- that priority and no backup. The zones of the completions are not empty, hold no comma, and are
    -- known to the tracker, or there is none.
    pub History-Kept :
        {t u : List Row}
        → History id t u
        → Kept config p proper J same id t
        → Kept config p proper J same id u
    History-Kept here k = k
    History-Kept (next history visit) k = Visit-Kept visit (History-Kept history k)
