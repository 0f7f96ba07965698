-- ===== src/Main/Cost.antt =====
-- The time that a run over one record sleeps for Jira.
use postal_dnsbl_monitor.Common.{
  ℕ, ◌+◌, Str, Bool, true, false, not, ◌&&◌, Option, none, some, List, [], arith,
}
use postal_dnsbl_monitor.Common.Exec.{Exec, Exn, Result, pure, ◌>>=◌, ◌>>◌}
use postal_dnsbl_monitor.Config.{Config}
use postal_dnsbl_monitor.Models.DnsResult.{DnsResult}
use postal_dnsbl_monitor.Models.IpRecord.{IpRecord, is_currently_listed, get_listed_zones}
use postal_dnsbl_monitor.Models.StateTransition.{
  StateTransition, ListingState, clean, listed, determine_state_transition,
}
use postal_dnsbl_monitor.Services.Database.{
  Db, update_ip_listed, update_ip_clean, update_ip_zone_change,
}
use postal_dnsbl_monitor.Services.DnsChecker.{Tracked, Completion, check_ip_concurrent}
use postal_dnsbl_monitor.Services.JiraClient.{
  JiraServer, JiraClient, FoundIssue, find_open_issue_for_ip, create_issue, add_comment,
  transition_issue_to_done,
}
use postal_dnsbl_monitor.Services.JiraClient.Cost.{
  IsClock, find_open_issue_for_ip-Costs, create_issue-Costs, add_comment-Costs,
  transition_issue_to_done-Costs,
}
use postal_dnsbl_monitor.Utils.Retry.Cost.{Costs, Costs-bind}
use postal_dnsbl_monitor.Services.Logger.{log_ip_check}
use postal_dnsbl_monitor.Main.{
  World, Act, Stats, Effect, effect_of, on_db, on_jira, on_tracker, recover_issue, recover_if,
  recovery, start_check, issue_for_listing, close_issue, upsert_issue, with_issue, apply_states,
  apply_transition, conclude, process_ip, description, is_listed_on, has_been_listed_on,
  recovery_note, missing_note, clean_comment, change_comment, recovered_stats,
}

module _ (J : JiraServer) (clock : J.State → ℕ) (timed : IsClock J clock) where
  abbrev pub clock_of : World J.State → ℕ
  clock_of w = clock w.jira

  -- An action of the world that sleeps at most `b` seconds.
  abbrev Sleeps : {A : Type 0} → ℕ → Act J A → Type 0
  Sleeps b m = Costs clock_of b m

  jira-Sleeps : {A : Type 0} (b : ℕ) (m : Exec J.State A) → Costs clock b m → Sleeps b (on_jira J m)
  jira-Sleeps b m h w = h w.jira

  db-Sleeps : {A : Type 0} (m : Exec Db A) → Sleeps 0 (on_db J m)
  db-Sleeps m w = omega arith

  tracker-Sleeps : {A : Type 0} (m : Exec Tracked A) → Sleeps 0 (on_tracker J m)
  tracker-Sleeps m w = omega arith

  -- A call of Jira, and a value to return after it.
  and_return :
      {A B : Type 0} (b : ℕ) (m : Exec J.State A) (a : B)
      → Costs clock 14 m
      → Sleeps (14 + b) (on_jira J m >> pure a)
  and_return b m a h =
      Costs-bind clock_of 14 b (on_jira J m) (λ _. pure a) (jira-Sleeps 14 m h) (λ _ w. omega arith)

  recover_issue-Sleeps :
      (client : JiraClient) (r : IpRecord) (found : Option FoundIssue)
      → Sleeps 14 (recover_issue J client r found)
  unfolding recover_issue
  recover_issue-Sleeps client r (some issue) w = omega arith
  recover_issue-Sleeps client r none w =
      and_return 0
        (create_issue J client r.ip (get_listed_zones r)
          (description r.ip is_listed_on (get_listed_zones r) recovery_note))
        true
        (create_issue-Costs J clock timed client r.ip (get_listed_zones r)
          (description r.ip is_listed_on (get_listed_zones r) recovery_note))
        w

  recover_if-Sleeps :
      (wanted : Bool) (r : IpRecord) (jira_client : Option JiraClient)
      → Sleeps 28 (recover_if J wanted r jira_client)
  unfolding recover_if
  recover_if-Sleeps wanted r none w = omega arith
  recover_if-Sleeps false r (some client) w = omega arith
  recover_if-Sleeps true r (some client) w =
      Costs-bind clock_of 14 14 (on_jira J (find_open_issue_for_ip J client r.ip))
        (recover_issue J client r)
        (jira-Sleeps 14 (find_open_issue_for_ip J client r.ip)
          (find_open_issue_for_ip-Costs J clock timed client r.ip))
        (recover_issue-Sleeps client r) w

  issue_for_listing-Sleeps :
      (client : JiraClient) (r : IpRecord) (t : StateTransition) (effect : Effect)
      (found : Option FoundIssue)
      → Sleeps 28 (issue_for_listing J client r t effect found)
  unfolding issue_for_listing
  issue_for_listing-Sleeps client r t effect (some issue) w = omega arith
  issue_for_listing-Sleeps client r t effect none w =
      let text = description r.ip has_been_listed_on t.listed_zones [] in
      and_return 14 (create_issue J client r.ip t.listed_zones text) _
        (create_issue-Costs J clock timed client r.ip t.listed_zones text) w

  close_issue-Sleeps :
      (client : JiraClient) (r : IpRecord) (effect : Effect) (found : Option FoundIssue)
      → Sleeps 28 (close_issue J client r effect found)
  unfolding close_issue
  close_issue-Sleeps client r effect none w = omega arith
  close_issue-Sleeps client r effect (some issue) w =
      Costs-bind clock_of 14 14 (on_jira J (add_comment J client issue.key (clean_comment r.ip))) _
        (jira-Sleeps 14 (add_comment J client issue.key (clean_comment r.ip))
          (add_comment-Costs J clock timed client issue.key (clean_comment r.ip)))
        (λ _.
          and_return 0 (transition_issue_to_done J client issue.key) _
            (transition_issue_to_done-Costs J clock timed client issue.key))
        w

  upsert_issue-Sleeps :
      (client : JiraClient) (r : IpRecord) (t : StateTransition) (effect : Effect)
      (found : Option FoundIssue)
      → Sleeps 28 (upsert_issue J client r t effect found)
  unfolding upsert_issue
  upsert_issue-Sleeps client r t effect (some issue) w =
      and_return 14 (add_comment J client issue.key (change_comment t)) _
        (add_comment-Costs J clock timed client issue.key (change_comment t)) w
  upsert_issue-Sleeps client r t effect none w =
      let text = description r.ip is_listed_on t.listed_zones missing_note in
      and_return 14 (create_issue J client r.ip t.listed_zones text) _
        (create_issue-Costs J clock timed client r.ip t.listed_zones text) w

  with_issue-Sleeps :
      (jira_client : Option JiraClient) (r : IpRecord) (effect : Effect)
      (k : JiraClient → Option FoundIssue → Act J Effect)
      → ((client : JiraClient) (found : Option FoundIssue) → Sleeps 28 (k client found))
      → Sleeps 42 (with_issue J jira_client r effect k)
  unfolding with_issue
  with_issue-Sleeps none r effect k h w = omega arith
  with_issue-Sleeps (some client) r effect k h w =
      Costs-bind clock_of 14 28 (on_jira J (find_open_issue_for_ip J client r.ip)) (k client)
        (jira-Sleeps 14 (find_open_issue_for_ip J client r.ip)
          (find_open_issue_for_ip-Costs J clock timed client r.ip))
        (h client) w

  -- An update, and what follows for the issue.
  update-Sleeps :
      (jira_client : Option JiraClient) (r : IpRecord) (update : Exec Db Bool)
      (effect : Bool → Effect) (k : Bool → JiraClient → Option FoundIssue → Act J Effect)
      → ((updated : Bool) (client : JiraClient) (found : Option FoundIssue)
          → Sleeps 28 (k updated client found))
      → Sleeps 42
          (on_db J update >>= λ updated. with_issue J jira_client r (effect updated) (k updated))
  update-Sleeps jira_client r update effect k h =
      Costs-bind clock_of 0 42 (on_db J update)
        (λ updated. with_issue J jira_client r (effect updated) (k updated)) (db-Sleeps update)
        (λ updated. with_issue-Sleeps jira_client r (effect updated) (k updated) (h updated))

  module _ (same : Str → Str → Bool) (config : Config) (jira_client : Option JiraClient) where
    apply_states-Sleeps :
        (a b : ListingState) (r : IpRecord) (t : StateTransition) (stats : Stats)
        → Sleeps 42 (apply_states J same config jira_client a b r t stats)
    unfolding apply_states
    apply_states-Sleeps clean listed r t stats =
        let effect = effect_of (record stats { listed = 1 }) in
        update-Sleeps jira_client r
          (update_ip_listed same r.id r.ip r.priority t.listed_zones config.listed_priority) effect
          (λ updated client. issue_for_listing J client r t (effect updated))
          (λ updated client. issue_for_listing-Sleeps client r t (effect updated))
    apply_states-Sleeps listed clean r t stats =
        let effect = effect_of (record stats { cleaned = 1 }) in
        update-Sleeps jira_client r
          (update_ip_clean same r.id r.ip r.old_priority config.clean_fallback_priority) effect
          (λ updated client. close_issue J client r (effect updated))
          (λ updated client. close_issue-Sleeps client r (effect updated))
    apply_states-Sleeps listed listed r t stats =
        let effect = effect_of (record stats { listed = 1 }) in
        update-Sleeps jira_client r (update_ip_zone_change same r.id r.ip t.listed_zones) effect
          (λ updated client. upsert_issue J client r t (effect updated))
          (λ updated client. upsert_issue-Sleeps client r t (effect updated))
    apply_states-Sleeps clean clean r t stats = λ w. omega arith

    apply_transition-Sleeps :
        (r : IpRecord) (t : StateTransition) (stats : Stats)
        → Sleeps 42 (apply_transition J same config jira_client r t stats)
    unfolding apply_transition
    apply_transition-Sleeps r t stats w =
        ground (arith, apply_states-Sleeps t.previous_state t.new_state r t stats w)

    conclude-Sleeps :
        (r : IpRecord) (rs : List DnsResult) (recovered : Bool) (t : Option StateTransition)
        → Sleeps 42 (conclude J same config jira_client r rs recovered t)
    unfolding conclude log_ip_check
    conclude-Sleeps r rs recovered none w = omega arith
    conclude-Sleeps r rs recovered (some t) w =
        Costs-bind clock_of 42 0
          (apply_transition J same config jira_client r t (recovered_stats recovered)) _
          (apply_transition-Sleeps r t (recovered_stats recovered)) (λ effect v. omega arith) w

    -- On a clock of the server's state that `sleep` alone advances, a run over one record sleeps 70
    -- seconds at most for Jira, however often Jira fails: each of its five calls of a decorated
    -- method at most 14.
    pub process_ip-Sleeps :
        (class_name : Exn → Str) (resolve : Str → ℕ → Result (List Str)) (message : Exn → Str)
        (dns_timeout : ℕ) (r : IpRecord) (cs : List Completion) (now : ℕ)
        → Costs clock_of 70
            (process_ip J same config jira_client class_name resolve message dns_timeout r cs now)
    unfolding process_ip recovery
    process_ip-Sleeps class_name resolve message dns_timeout r cs now =
        Costs-bind clock_of 28 42 (recovery J config jira_client r) _
          (recover_if-Sleeps (not config.dry_run && is_currently_listed r) r jira_client)
          (λ recovered.
            Costs-bind clock_of 0 42 (on_tracker J (start_check J now)) _
              (tracker-Sleeps (start_check J now))
              (λ _.
                Costs-bind clock_of 0 42
                  (on_tracker J
                    (check_ip_concurrent class_name resolve message r.ip dns_timeout cs))
                  _
                  (tracker-Sleeps
                    (check_ip_concurrent class_name resolve message r.ip dns_timeout cs))
                  (λ rs. conclude-Sleeps r rs recovered (determine_state_transition r rs))))
