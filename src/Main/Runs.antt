-- ===== src/Main/Runs.antt =====
-- One run over a record, and the run after it.
use mathlib.Core.Path.{subst}
use postal_dnsbl_monitor.Common.{
  ℕ, Str, ◌≡◌, sym, ap, ◌∙◌, Bool, true, false, Option, none, some, List, [], ◌∷◌, map, All,
  SameTexts, Bool-cases, inl, inr,
}
use postal_dnsbl_monitor.Common.Exec.{Exn, Result, ok, err}
use postal_dnsbl_monitor.Common.Sorting.{sorted}
use postal_dnsbl_monitor.Common.Sorting.Laws.{contains-sorted}
use postal_dnsbl_monitor.Config.{Config}
use postal_dnsbl_monitor.Models.DnsResult.{is_listed}
use postal_dnsbl_monitor.Models.IpRecord.{IpRecord, zones_of, get_listed_zones}
use postal_dnsbl_monitor.Models.StateTransition.{
  StateTransition, transition_to, determine_state_transition,
}
use postal_dnsbl_monitor.Models.StateTransition.Decision.{
  zones_where, aggregate-listed, transition_to-none_iff,
}
use postal_dnsbl_monitor.Services.Database.{Row, Db, to_record, joined, or_empty}
use postal_dnsbl_monitor.Services.Database.Updates.{up, find_row}
use postal_dnsbl_monitor.Services.Database.Zones.{Proper}
use postal_dnsbl_monitor.Services.DnsChecker.{Completion}
use postal_dnsbl_monitor.Services.DnsChecker.Results.{KnownZones}
use postal_dnsbl_monitor.Services.DnsChecker.Verdicts.{result_of}
use postal_dnsbl_monitor.Services.JiraClient.{JiraServer, JiraClient}
use postal_dnsbl_monitor.Main.{World, recovery}
use postal_dnsbl_monitor.Main.Frames.{db_after, Reaches}
use postal_dnsbl_monitor.Main.Refinement.{run, transition, process_ip-Reaches}
use postal_dnsbl_monitor.Main.Convergence.{Reflects, row_after}

module _ (J : JiraServer) (same : Str → Str → Bool) (config : Config)
    (jira_client : Option JiraClient) (class_name : Exn → Str)
    (resolve : Str → ℕ → Result (List Str)) (message : Exn → Str) (dns_timeout : ℕ) where
  -- The zones that list an address, by the answers of DNS.
  abbrev pub listing : Str → List Completion → List Str
  listing ip cs =
      zones_where is_listed (map (result_of class_name resolve message ip dns_timeout) cs)

  pub Proper-listing :
      (ip : Str) (cs : List Completion) → All (λ c. Proper c.zone) cs → All Proper (listing ip cs)
  Proper-listing ip [] h = tt
  Proper-listing ip (c ∷ cs) h =
      elim (Bool-cases (is_listed (result_of class_name resolve message ip dns_timeout c))) [
        | inl e ↦ rw e (h.0, Proper-listing ip cs h.1)
        | inr e ↦ rw e (Proper-listing ip cs h.1)
      ]

  pub transition-listing :
      (r : IpRecord) (cs : List Completion)
      → transition_to r (sorted (listing r.ip cs))
        ≡ transition J same config jira_client class_name resolve message dns_timeout r cs
  unfolding determine_state_transition
  transition-listing r cs =
      ap (transition_to r)
        (sym (aggregate-listed (map (result_of class_name resolve message r.ip dns_timeout) cs)))

  -- A run that is not dry, on a server that raises nothing, over the record of a row whose
  -- blockingLists is not NULL, where zones are not empty and hold no comma, the tracker knows them,
  -- the collation tells the stored text from the new one, and the recovery of a missing issue does
  -- not raise: whatever Jira does afterwards, the row names in the end exactly the zones that list
  -- the address; its priority and its backup are those of a newly listed, a cleared or an unmoved
  -- row.
  pub process_ip-Reflects :
      (ip : Str) (table : List Row) (row : Row) (s : Str) (cs : List Completion) (now : ℕ)
      (w : World J.State) {recovered : Bool}
      → config.dry_run ≡ false
      → w.db ≡ up table
      → find_row row.id table ≡ some row
      → row.blocking_lists ≡ some s
      → All (λ c. Proper c.zone) cs
      → (same s (joined (listing ip cs)) ≡ true → s ≡ joined (listing ip cs))
      → KnownZones class_name resolve message cs w.tracker
      → (recovery J config jira_client (to_record row ip) w).0 ≡ ok recovered
      → (row' : Row) × (find_row row.id
            (run J same config jira_client class_name resolve message dns_timeout
              (to_record row ip)
              cs
              now
              w).1.db.table
          ≡ some row')
        × Reflects config (listing ip cs) row row'
  unfolding to_record
  process_ip-Reflects ip table row s cs now w {recovered} wet healthy found text proper collation
        known e =
      let r = to_record row ip in
      let t = transition J same config jira_client class_name resolve message dns_timeout r cs in
      let reached : (run J same config jira_client class_name resolve message dns_timeout r cs now
            w).1.db
          ≡ db_after J same config r t w.db =
        subst
          (λ x.
            Reaches J same config jira_client class_name resolve message dns_timeout r cs w x
              (run J same config jira_client class_name resolve message dns_timeout r cs now w))
          e
          (process_ip-Reaches J same config jira_client class_name resolve message dns_timeout r cs
            now w known) in
      let (row', at_row, reflects) =
        row_after J same config ip table row s found text (listing ip cs)
          (Proper-listing ip cs proper) collation t wet (transition-listing r cs) in
      (
        row',
        ap (λ (db : Db). find_row row.id db.table)
              (reached ∙ ap (db_after J same config r t) healthy)
            ∙ at_row,
        reflects,
      )

  -- A run, dry or not, over the record of a row that names exactly the zones that list its address
  -- does not change the database, whatever the server and Jira raise.
  pub process_ip-settled :
      (ip : Str) (row : Row) (cs : List Completion) (now : ℕ) (w : World J.State)
      → SameTexts (zones_of (or_empty row.blocking_lists)) (listing ip cs)
      → KnownZones class_name resolve message cs w.tracker
      → (run J same config jira_client class_name resolve message dns_timeout
          (to_record row ip)
          cs
          now
          w).1.db
        ≡ w.db
  unfolding to_record get_listed_zones
  process_ip-settled ip row cs now w h known =
      let r = to_record row ip in
      let no_op : transition J same config jira_client class_name resolve message dns_timeout r cs
          ≡ none =
        sym (transition-listing r cs)
        ∙ (transition_to-none_iff r (sorted (listing ip cs))).1
            (λ z. h z ∙ sym (contains-sorted (listing ip cs) z)) in
      settled r no_op (recovery J config jira_client r w).0 (
        process_ip-Reaches J same config jira_client class_name resolve message dns_timeout r cs now
          w known)
    where
      settled :
          (r : IpRecord)
          → transition J same config jira_client class_name resolve message dns_timeout r cs ≡ none
          → (x : Result Bool)
          → Reaches J same config jira_client class_name resolve message dns_timeout r cs w x
              (run J same config jira_client class_name resolve message dns_timeout r cs now w)
          → (run J same config jira_client class_name resolve message dns_timeout r cs now w).1.db
            ≡ w.db
      settled r e (err x) out = out.1
      settled r e (ok b) out =
          out ∙ ap (λ (t : Option StateTransition). db_after J same config r t w.db) e
