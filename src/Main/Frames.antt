-- ===== src/Main/Frames.antt =====
-- What the steps of `process_ip` do to the database and to Jira.
use postal_dnsbl_monitor.Common.{
  ℕ, Str, ◌≡◌, refl, ◌∙◌, inl, inr, Bool, true, false, not, ◌&&◌, Option, none, some, List, map,
  arith, if◌then◌else◌, Bool-cases,
}
use postal_dnsbl_monitor.Common.Exec.{Exec, Exn, Result, ok, err, ◌>>=◌, ◌>>◌}
use postal_dnsbl_monitor.Common.Ensures.{Keeps, Keeps-continue}
use postal_dnsbl_monitor.Config.{Config}
use postal_dnsbl_monitor.Models.DnsResult.{DnsResult}
use postal_dnsbl_monitor.Models.IpRecord.{IpRecord, is_currently_listed}
use postal_dnsbl_monitor.Models.StateTransition.{
  StateTransition, ListingState, clean, listed, determine_state_transition,
}
use postal_dnsbl_monitor.Services.Database.{
  Db, update_ip_listed, update_ip_clean, update_ip_zone_change,
}
use postal_dnsbl_monitor.Services.DnsChecker.{Tracked, Completion, check_ip_concurrent}
use postal_dnsbl_monitor.Services.DnsChecker.Results.{
  KnownZones, tracked_after, check_ip_concurrent-verdicts,
}
use postal_dnsbl_monitor.Services.DnsChecker.Verdicts.{result_of}
use postal_dnsbl_monitor.Services.HealthTracker.{record_ip_check_start}
use postal_dnsbl_monitor.Services.JiraClient.{JiraServer, JiraClient, FoundIssue}
use postal_dnsbl_monitor.Services.Logger.{log_ip_check}
use postal_dnsbl_monitor.Main.{
  World, Stats, Effect, effect_of, recover_issue, recover_if, recovery, start_check,
  issue_for_listing, close_issue, upsert_issue, with_issue, apply_states, apply_transition,
  conclude, on_tracker,
}

module _ (J : JiraServer) where
  abbrev pub db_of : World J.State → Db
  db_of w = w.db

  abbrev pub jira_of : World J.State → J.State
  jira_of w = w.jira

  abbrev pub apart_from_jira : World J.State → Db × Tracked
  apart_from_jira w = (w.db, w.tracker)

  recover_issue-Keeps :
      (client : JiraClient) (r : IpRecord) (found : Option FoundIssue)
      → Keeps apart_from_jira (recover_issue J client r found)
  unfolding recover_issue
  recover_issue-Keeps client r none w = Keeps-continue apart_from_jira _ _ _ (λ a s. refl)
  recover_issue-Keeps client r (some issue) w = refl

  recover_if-Keeps :
      (wanted : Bool) (r : IpRecord) (jira_client : Option JiraClient)
      → Keeps apart_from_jira (recover_if J wanted r jira_client)
  unfolding recover_if
  recover_if-Keeps wanted r none w = refl
  recover_if-Keeps false r (some client) w = refl
  recover_if-Keeps true r (some client) w =
      Keeps-continue apart_from_jira _ _ _ (recover_issue-Keeps client r)

  -- The recovery of a missing issue touches neither the database nor the tracker.
  pub recovery-Keeps :
      (config : Config) (jira_client : Option JiraClient) (r : IpRecord)
      → Keeps apart_from_jira (recovery J config jira_client r)
  unfolding recovery
  recovery-Keeps config jira_client r =
      recover_if-Keeps (not config.dry_run && is_currently_listed r) r jira_client

  issue_for_listing-Keeps :
      (client : JiraClient) (r : IpRecord) (t : StateTransition) (effect : Effect)
      (found : Option FoundIssue)
      → Keeps db_of (issue_for_listing J client r t effect found)
  unfolding issue_for_listing
  issue_for_listing-Keeps client r t effect none w = Keeps-continue db_of _ _ _ (λ a s. refl)
  issue_for_listing-Keeps client r t effect (some issue) w = refl

  close_issue-Keeps :
      (client : JiraClient) (r : IpRecord) (effect : Effect) (found : Option FoundIssue)
      → Keeps db_of (close_issue J client r effect found)
  unfolding close_issue
  close_issue-Keeps client r effect none w = refl
  close_issue-Keeps client r effect (some issue) w = ground arith

  upsert_issue-Keeps :
      (client : JiraClient) (r : IpRecord) (t : StateTransition) (effect : Effect)
      (found : Option FoundIssue)
      → Keeps db_of (upsert_issue J client r t effect found)
  unfolding upsert_issue
  upsert_issue-Keeps client r t effect none w = Keeps-continue db_of _ _ _ (λ a s. refl)
  upsert_issue-Keeps client r t effect (some issue) w = Keeps-continue db_of _ _ _ (λ a s. refl)

  with_issue-Keeps :
      (jira_client : Option JiraClient) (r : IpRecord) (effect : Effect)
      (k : JiraClient → Option FoundIssue → Exec (World J.State) Effect)
      → ((client : JiraClient) (found : Option FoundIssue) → Keeps db_of (k client found))
      → Keeps db_of (with_issue J jira_client r effect k)
  unfolding with_issue
  with_issue-Keeps none r effect k kk w = refl
  with_issue-Keeps (some client) r effect k kk w = Keeps-continue db_of _ _ _ (kk client)

  abbrev pub started : ℕ → Tracked → Tracked
  started now none = none
  started now (some t) = some (record_ip_check_start now t).1

  pub start_check-started : (now : ℕ) (t : Tracked) → start_check J now t ≡ (ok tt, started now t)
  unfolding start_check record_ip_check_start
  start_check-started now none = refl
  start_check-started now (some t) = refl

  pub KnownZones-started :
      (class_name : Exn → Str) (resolve : Str → ℕ → Result (List Str)) (message : Exn → Str)
      (now : ℕ) (cs : List Completion) (t : Tracked)
      → KnownZones class_name resolve message cs t
      → KnownZones class_name resolve message cs (started now t)
  unfolding record_ip_check_start
  KnownZones-started class_name resolve message now cs none k = tt
  KnownZones-started class_name resolve message now cs (some t) k = k

  -- The database that a transition leaves behind.
  module _ (same : Str → Str → Bool) (config : Config) where
    abbrev pub db_by_states : ListingState → ListingState → IpRecord → List Str → Db → Db
    db_by_states clean listed r zones db =
        (update_ip_listed same r.id r.ip r.priority zones config.listed_priority db).1
    db_by_states listed clean r zones db =
        (update_ip_clean same r.id r.ip r.old_priority config.clean_fallback_priority db).1
    db_by_states listed listed r zones db = (update_ip_zone_change same r.id r.ip zones db).1
    db_by_states clean clean r zones db = db

    abbrev pub db_after : IpRecord → Option StateTransition → Db → Db
    db_after r none db = db
    db_after r (some t) db =
        if config.dry_run then db else db_by_states t.previous_state t.new_state r t.listed_zones db

    pub db_after-wet :
        (r : IpRecord) (t : StateTransition) (db : Db)
        → config.dry_run ≡ false
        → db_after r (some t) db ≡ db_by_states t.previous_state t.new_state r t.listed_zones db
    db_after-wet r t db wet = ground arith

    module _ (jira_client : Option JiraClient) where
      apply_states-db :
          (a b : ListingState) (r : IpRecord) (t : StateTransition) (stats : Stats)
          (w : World J.State)
          → (apply_states J same config jira_client a b r t stats w).1.db
            ≡ db_by_states a b r t.listed_zones w.db
      unfolding apply_states
      apply_states-db clean listed r t stats w = Keeps-continue db_of _ _ _ (λ updated.
          with_issue-Keeps jira_client r _ _ (λ client.
            issue_for_listing-Keeps client r t (effect_of (record stats { listed = 1 }) updated)))
      apply_states-db listed clean r t stats w = Keeps-continue db_of _ _ _ (λ updated.
          with_issue-Keeps jira_client r _ _ (λ client.
            close_issue-Keeps client r (effect_of (record stats { cleaned = 1 }) updated)))
      apply_states-db listed listed r t stats w = Keeps-continue db_of _ _ _ (λ updated.
          with_issue-Keeps jira_client r _ _ (λ client.
            upsert_issue-Keeps client r t (effect_of (record stats { listed = 1 }) updated)))
      apply_states-db clean clean r t stats w = refl

      apply_transition-db :
          (r : IpRecord) (t : StateTransition) (stats : Stats) (w : World J.State)
          → (apply_transition J same config jira_client r t stats w).1.db ≡ db_after r (some t) w.db
      unfolding apply_transition
      apply_transition-db r t stats w = elim (Bool-cases config.dry_run) [
        | inl dry ↦ rw dry refl
        | inr wet ↦ rw wet (apply_states-db t.previous_state t.new_state r t stats w)
      ]

      pub conclude-db :
          (r : IpRecord) (rs : List DnsResult) (recovered : Bool) (t : Option StateTransition)
          (w : World J.State)
          → (conclude J same config jira_client r rs recovered t w).1.db ≡ db_after r t w.db
      unfolding conclude
      conclude-db r rs recovered none w = unfold log_ip_check in refl
      conclude-db r rs recovered (some t) w =
          Keeps-continue db_of _ _ _ (λ effect s. unfold log_ip_check in refl)
          ∙ apply_transition-db r t _ w

      module _ (class_name : Exn → Str) (resolve : Str → ℕ → Result (List Str))
          (message : Exn → Str) (dns_timeout : ℕ) where
        -- The transition of a record under the answers of DNS.
        abbrev pub decision : IpRecord → List Completion → Option StateTransition
        decision r cs =
            determine_state_transition r
              (map (result_of class_name resolve message r.ip dns_timeout) cs)

        -- How a run over one record ends, from the recovery of its issue on: an exception of the
        -- recovery ends it, with the database as it was; otherwise the transition reaches the
        -- database, whatever Jira raises later.
        abbrev pub Reaches :
            IpRecord
            → List Completion
            → World J.State
            → Result Bool
            → Result Stats × World J.State
            → Type 0
        Reaches r cs w (err e) out = (out.0 ≡ err e) × (out.1.db ≡ w.db)
        Reaches r cs w (ok b) out = out.1.db ≡ db_after r (decision r cs) w.db

        pub after_recovery :
            (r : IpRecord) (cs : List Completion) (now : ℕ) (recovered : Bool) (w : World J.State)
            → KnownZones class_name resolve message cs w.tracker
            → (do
              on_tracker J (start_check J now)
              dns_results ←
                  on_tracker J (check_ip_concurrent class_name resolve message r.ip dns_timeout cs)
              conclude J same config jira_client r dns_results recovered
                  (determine_state_transition r dns_results))
                w
              ≡ conclude J same config jira_client r
                  (map (result_of class_name resolve message r.ip dns_timeout) cs)
                  recovered
                  (decision r cs)
                  (record w {
                    tracker =
                        tracked_after class_name resolve message r.ip dns_timeout cs
                          (started now w.tracker);
                  })
        after_recovery r cs now recovered w k =
            rw
              (
                start_check-started now w.tracker,
                check_ip_concurrent-verdicts class_name resolve message r.ip dns_timeout cs
                    (started now w.tracker)
                    (KnownZones-started class_name resolve message now cs w.tracker k),
              )
              refl
