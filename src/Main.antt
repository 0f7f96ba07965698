-- ===== src/Main.antt =====
-- `process_ip` of src/main.py, over the parts of the world that it changes: the database, the Jira
-- server, the health tracker and the per-IP log. The order in which the DNS checks complete, the
-- answers of DNS and the clock are arguments. A log entry leaves out the duration; the other log
-- lines are not modelled.
pub mod Frames
pub mod Counting
pub mod Refinement
pub mod Convergence
pub mod Runs
pub mod Job
pub mod Lifecycle
pub mod History
pub mod Cost
pub mod Idle
pub mod Live
pub mod Program
mod Records
use postal_dnsbl_monitor.Common.{
  ℕ, zero, suc, ◌+◌, Str, codes, Bool, true, false, not, ◌&&◌, Option, none, some, List, [], ◌∷◌,
  ◌++◌, map, length, if◌then◌else◌,
}
use postal_dnsbl_monitor.Common.Show.{show}
use postal_dnsbl_monitor.Common.Split.{join}
use postal_dnsbl_monitor.Common.Exec.{Exec, Exn, Result, ok, err, pure, modify, zoom, ◌>>=◌, ◌>>◌}
use postal_dnsbl_monitor.Config.{Config}
use postal_dnsbl_monitor.Models.DnsResult.{DnsResult, is_unknown}
use postal_dnsbl_monitor.Models.IpRecord.{
  IpRecord, is_currently_listed, get_listed_zones, non_empty,
}
use postal_dnsbl_monitor.Models.StateTransition.{
  StateTransition, ListingState, clean, listed, state_of, determine_state_transition,
}
use postal_dnsbl_monitor.Services.Database.{
  Db, update_ip_listed, update_ip_clean, update_ip_zone_change,
}
use postal_dnsbl_monitor.Services.DnsChecker.{Tracked, Completion, check_ip_concurrent}
use postal_dnsbl_monitor.Services.HealthTracker.{HealthTracker, record_ip_check_start}
use postal_dnsbl_monitor.Services.JiraClient
use postal_dnsbl_monitor.Services.JiraClient.{
  JiraServer, JiraClient, FoundIssue, bullets, find_open_issue_for_ip, create_issue, add_comment,
  transition_issue_to_done,
}
use postal_dnsbl_monitor.Services.Logger.{
  IpCheck, LogEntry, created_issue, closed_issue, updated_issue, log_ip_check,
}
pub use Records.*
unfoldable pub use Records.{description, clean_comment, change_comment, unknown_zones}

module _ (J : JiraServer) where
  abbrev pub Act : Type 0 → Type 0
  Act A = Exec (World J.State) A

  abbrev pub on_db : {A : Type 0} → Exec Db A → Act A
  on_db = zoom (λ w. w.db) (λ db w. record w { db = db })

  abbrev pub on_jira : {A : Type 0} → Exec J.State A → Act A
  on_jira = zoom (λ w. w.jira) (λ j w. record w { jira = j })

  abbrev pub on_tracker : {A : Type 0} → Exec Tracked A → Act A
  on_tracker = zoom (λ w. w.tracker) (λ t w. record w { tracker = t })

  abbrev pub on_log : {A : Type 0} → Exec (List LogEntry) A → Act A
  on_log = zoom (λ w. w.log) (λ log w. record w { log = log })

  -- the issue for a listed address, if the search found none
  unfoldable pub recover_issue : JiraClient → IpRecord → Option FoundIssue → Act Bool
  recover_issue client r (some issue) = pure false
  recover_issue client r none = do
    let zones = get_listed_zones r
    on_jira (create_issue J client r.ip zones (description r.ip is_listed_on zones recovery_note))
    pure true

  -- the recovery at the start; the result is `recovery_jira_created`
  unfoldable pub recover_if : Bool → IpRecord → Option JiraClient → Act Bool
  unfolding recover_issue
  recover_if wanted r none = pure false
  recover_if false r (some client) = pure false
  recover_if true r (some client) = do
    existing_issue ← on_jira (find_open_issue_for_ip J client r.ip)
    recover_issue client r existing_issue

  unfoldable pub recovery : Config → Option JiraClient → IpRecord → Act Bool
  unfolding recover_if
  recovery config jira_client r =
      recover_if (not config.dry_run && is_currently_listed r) r jira_client

  -- `if health_tracker: health_tracker.record_ip_check_start()`
  unfoldable pub start_check : ℕ → Exec Tracked Unit
  start_check now none = (ok tt, none)
  start_check now (some t) = let (r, t') = record_ip_check_start now t in (r, some t')

  -- a comment on the issue that was found, or a new issue
  unfoldable pub issue_for_listing :
      JiraClient → IpRecord → StateTransition → Effect → Option FoundIssue → Act Effect
  issue_for_listing client r t effect (some issue) = pure effect
  issue_for_listing client r t effect none = do
    on_jira (
        create_issue J client r.ip t.listed_zones
          (description r.ip has_been_listed_on t.listed_zones []))
    pure (record effect {
      stats = record effect.stats { jira_created = 1 };
      jira_action = created_issue;
    })

  unfoldable pub close_issue : JiraClient → IpRecord → Effect → Option FoundIssue → Act Effect
  close_issue client r effect none = pure effect
  close_issue client r effect (some issue) = do
    on_jira (add_comment J client issue.key (clean_comment r.ip))
    on_jira (transition_issue_to_done J client issue.key)
    pure (record effect {
      stats = record effect.stats { jira_updated = 1 };
      jira_action = closed_issue;
    })

  unfoldable pub upsert_issue :
      JiraClient → IpRecord → StateTransition → Effect → Option FoundIssue → Act Effect
  upsert_issue client r t effect (some issue) = do
    on_jira (add_comment J client issue.key (change_comment t))
    pure (record effect {
      stats = record effect.stats { jira_updated = 1 };
      jira_action = updated_issue;
    })
  upsert_issue client r t effect none = do
    on_jira (
        create_issue J client r.ip t.listed_zones
          (description r.ip is_listed_on t.listed_zones missing_note))
    pure (record effect {
      stats = record effect.stats { jira_created = 1 };
      jira_action = created_issue;
    })

  -- `if jira_client:` and the search for the issue of the address
  unfoldable pub with_issue :
      Option JiraClient
      → IpRecord
      → Effect
      → (JiraClient → Option FoundIssue → Act Effect)
      → Act Effect
  with_issue none r effect continue = pure effect
  with_issue (some client) r effect continue = do
    existing_issue ← on_jira (find_open_issue_for_ip J client r.ip)
    continue client existing_issue

  module _ (same : Str → Str → Bool) (config : Config) (jira_client : Option JiraClient) where
    -- the branches on the two states
    unfoldable pub apply_states :
        ListingState → ListingState → IpRecord → StateTransition → Stats → Act Effect
    unfolding with_issue issue_for_listing close_issue upsert_issue
    apply_states clean listed r t stats = do
      updated ←
          on_db (update_ip_listed same r.id r.ip r.priority t.listed_zones config.listed_priority)
      let effect = effect_of (record stats { listed = 1 }) updated
      with_issue jira_client r effect (λ client. issue_for_listing client r t effect)
    apply_states listed clean r t stats = do
      updated ← on_db (update_ip_clean same r.id r.ip r.old_priority config.clean_fallback_priority)
      let effect = effect_of (record stats { cleaned = 1 }) updated
      with_issue jira_client r effect (λ client. close_issue client r effect)
    apply_states listed listed r t stats = do
      updated ← on_db (update_ip_zone_change same r.id r.ip t.listed_zones)
      let effect = effect_of (record stats { listed = 1 }) updated
      with_issue jira_client r effect (λ client. upsert_issue client r t effect)
    apply_states clean clean r t stats = pure (effect_of stats false)

    unfoldable pub apply_transition : IpRecord → StateTransition → Stats → Act Effect
    unfolding apply_states
    apply_transition r t stats =
        if config.dry_run
        then pure (effect_of stats false)
        else apply_states t.previous_state t.new_state r t stats

    -- from the decision to the end
    unfoldable pub conclude : IpRecord → List DnsResult → Bool → Option StateTransition → Act Stats
    unfolding apply_transition log_ip_check
    conclude r dns_results recovered none = do
      on_log (
          log_ip_check (record {
            ip = r.ip;
            listed_zones = get_listed_zones r;
            unknown_zones = unknown_zones dns_results;
            decision = state_of (is_currently_listed r);
            db_changes = false;
            jira_action = recovered_action recovered;
          }))
      pure (record (recovered_stats recovered) { unchanged = 1 })
    conclude r dns_results recovered (some t) = do
      effect ← apply_transition r t (recovered_stats recovered)
      on_log (
          log_ip_check (record {
            ip = r.ip;
            listed_zones = t.listed_zones;
            unknown_zones = unknown_zones dns_results;
            decision = t.new_state;
            db_changes = effect.db_updated;
            jira_action = effect.jira_action;
          }))
      pure effect.stats

    module _ (class_name : Exn → Str) (resolve : Str → ℕ → Result (List Str)) (message : Exn → Str)
        (dns_timeout : ℕ) where
      unfoldable pub process_ip : IpRecord → List Completion → ℕ → Act Stats
      unfolding recovery start_check conclude
      process_ip r completions now = do
        recovered ← recovery config jira_client r
        on_tracker (start_check now)
        dns_results ←
            on_tracker (check_ip_concurrent class_name resolve message r.ip dns_timeout completions)
        conclude r dns_results recovered (determine_state_transition r dns_results)
