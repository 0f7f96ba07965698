-- ===== src/Main/Live.antt =====
-- Runs on a database that raises nothing and, with a Jira client, a Jira server whose calls return.
use postal_dnsbl_monitor.Common.{
  ℕ, Str, ◌≡◌, refl, Bool, true, false, not, ◌&&◌, Option, none, some, List, [], if◌then◌else◌,
}
use postal_dnsbl_monitor.Common.Ensures.{Succeeds, Leads, Leads-bind}
use postal_dnsbl_monitor.Common.Exec.{Exec, Exn, Result, ok, err, pure, ◌>>=◌, ◌>>◌}
use postal_dnsbl_monitor.Config.{Config}
use postal_dnsbl_monitor.Models.DnsResult.{DnsResult}
use postal_dnsbl_monitor.Models.IpRecord.{IpRecord, is_currently_listed, get_listed_zones}
use postal_dnsbl_monitor.Models.StateTransition.{
  StateTransition, ListingState, clean, listed, determine_state_transition,
}
use postal_dnsbl_monitor.Services.Database.{
  Row, update, get_db_connection, update_ip_listed, update_ip_clean, update_ip_zone_change,
}
use postal_dnsbl_monitor.Services.DnsChecker.{Tracked, Completion, check_ip_concurrent}
use postal_dnsbl_monitor.Services.DnsChecker.Coverage.{
  Covers, Within, Covers-KnownZones, Covers-tracked_after,
}
use postal_dnsbl_monitor.Services.DnsChecker.Results.{check_ip_concurrent-verdicts}
use postal_dnsbl_monitor.Services.HealthTracker.{record_ip_check_start}
use postal_dnsbl_monitor.Services.JiraClient.{
  JiraServer, JiraClient, FoundIssue, find_open_issue_for_ip, create_issue, add_comment,
  transition_issue_to_done,
}
use postal_dnsbl_monitor.Services.JiraClient.Answers.{
  Answers, Returns, find_open_issue_for_ip-Returns, create_issue-Returns, add_comment-Returns,
  transition_issue_to_done-Returns,
}
use postal_dnsbl_monitor.Services.Logger.{log_ip_check}
use postal_dnsbl_monitor.Main.{
  World, Act, Stats, Effect, effect_of, on_db, on_jira, on_tracker, recover_issue, recover_if,
  recovery, start_check, issue_for_listing, close_issue, upsert_issue, with_issue, apply_states,
  apply_transition, conclude, process_ip, description, is_listed_on, has_been_listed_on,
  recovery_note, missing_note, clean_comment, change_comment, recovered_stats,
}

-- Without a client Jira is not called.
abbrev pub Ready : JiraServer → Option JiraClient → Type 0
Ready J none = Unit
Ready J (some client) = Answers J

module _ (J : JiraServer) (zones : List Str) where
  -- The DSN parses, the database raises nothing, and the tracker knows the zones.
  abbrev pub Good : World J.State → Type 0
  Good w = (w.db.faults ≡ []) × (w.db.dsn_error ≡ none) × Covers zones w.tracker

  abbrev pub Live : {A : Type 0} → Act J A → Type 0
  Live m = Leads Good Good m

  in_turn :
      {A B : Type 0} (m : Act J A) (k : A → Act J B)
      → Live m
      → ((a : A) → Live (k a))
      → Live (m >>= k)
  in_turn m k h g = Leads-bind Good Good Good m k h g

  called :
      {A : Type 0} (m : Exec J.State A) (w : World J.State) (o : Result A × J.State)
      → Good w
      → Succeeds (λ s. Unit) o
      → Succeeds Good (o.0, record w { jira = o.1 })
  called m w (ok a, s) h k = h
  called m w (err e, s) h k = absurd k

  jira-Live : {A : Type 0} (m : Exec J.State A) → Returns m → Live (on_jira J m)
  jira-Live m h w g = called m w (m w.jira) g (h w.jira tt)

  -- A call of Jira, and a value to return after it.
  and_return :
      {A B : Type 0} (m : Exec J.State A) (a : B) → Returns m → Live (on_jira J m >> pure a)
  and_return m a h = in_turn (on_jira J m) (λ _. pure a) (jira-Live m h) (λ _ w g. g)

  update-Live : (test : Row → Bool) (set_row : Row → Row) → Live (on_db J (update test set_row))
  unfolding get_db_connection
  update-Live test set_row w g = rw (g.0, g.1) (refl, refl, g.2)

  started-Live : (now : ℕ) → Live (on_tracker J (start_check J now))
  unfolding start_check record_ip_check_start
  started-Live now w (calm, parses, covers) = go w.tracker covers
    where
      go :
          (t : Tracked)
          → Covers zones t
          → Succeeds Good (let (r, u) = start_check J now t in (r, record w { tracker = u }))
      go none h = absurd h
      go (some t) h = (calm, parses, h)

  recover_issue-Live :
      (client : JiraClient) (r : IpRecord) (found : Option FoundIssue)
      → Answers J
      → Live (recover_issue J client r found)
  unfolding recover_issue
  recover_issue-Live client r (some issue) answers w g = g
  recover_issue-Live client r none answers w g =
      let text = description r.ip is_listed_on (get_listed_zones r) recovery_note in
      and_return (create_issue J client r.ip (get_listed_zones r) text) true
        (create_issue-Returns J answers client r.ip (get_listed_zones r) text) w g

  recover_if-Live :
      (wanted : Bool) (r : IpRecord) (jira_client : Option JiraClient)
      → Ready J jira_client
      → Live (recover_if J wanted r jira_client)
  unfolding recover_if
  recover_if-Live wanted r none ready w g = g
  recover_if-Live false r (some client) ready w g = g
  recover_if-Live true r (some client) ready w g =
      in_turn (on_jira J (find_open_issue_for_ip J client r.ip)) (recover_issue J client r)
        (jira-Live (find_open_issue_for_ip J client r.ip)
          (find_open_issue_for_ip-Returns J ready client r.ip))
        (λ found. recover_issue-Live client r found ready) w g

  issue_for_listing-Live :
      (client : JiraClient) (r : IpRecord) (t : StateTransition) (effect : Effect)
      (found : Option FoundIssue)
      → Answers J
      → Live (issue_for_listing J client r t effect found)
  unfolding issue_for_listing
  issue_for_listing-Live client r t effect (some issue) answers w g = g
  issue_for_listing-Live client r t effect none answers w g =
      let text = description r.ip has_been_listed_on t.listed_zones [] in
      and_return (create_issue J client r.ip t.listed_zones text) _
        (create_issue-Returns J answers client r.ip t.listed_zones text) w g

  close_issue-Live :
      (client : JiraClient) (r : IpRecord) (effect : Effect) (found : Option FoundIssue)
      → Answers J
      → Live (close_issue J client r effect found)
  unfolding close_issue
  close_issue-Live client r effect none answers w g = g
  close_issue-Live client r effect (some issue) answers w g =
      in_turn (on_jira J (add_comment J client issue.key (clean_comment r.ip))) _
        (jira-Live (add_comment J client issue.key (clean_comment r.ip))
          (add_comment-Returns J answers client issue.key (clean_comment r.ip)))
        (λ _.
          and_return (transition_issue_to_done J client issue.key) _
            (transition_issue_to_done-Returns J answers client issue.key))
        w g

  upsert_issue-Live :
      (client : JiraClient) (r : IpRecord) (t : StateTransition) (effect : Effect)
      (found : Option FoundIssue)
      → Answers J
      → Live (upsert_issue J client r t effect found)
  unfolding upsert_issue
  upsert_issue-Live client r t effect (some issue) answers w g =
      and_return (add_comment J client issue.key (change_comment t)) _
        (add_comment-Returns J answers client issue.key (change_comment t)) w g
  upsert_issue-Live client r t effect none answers w g =
      let text = description r.ip is_listed_on t.listed_zones missing_note in
      and_return (create_issue J client r.ip t.listed_zones text) _
        (create_issue-Returns J answers client r.ip t.listed_zones text) w g

  with_issue-Live :
      (jira_client : Option JiraClient) (r : IpRecord) (effect : Effect)
      (k : JiraClient → Option FoundIssue → Act J Effect)
      → Ready J jira_client
      → ((client : JiraClient) (found : Option FoundIssue) → Answers J → Live (k client found))
      → Live (with_issue J jira_client r effect k)
  unfolding with_issue
  with_issue-Live none r effect k ready h w g = g
  with_issue-Live (some client) r effect k ready h w g =
      in_turn (on_jira J (find_open_issue_for_ip J client r.ip)) (k client)
        (jira-Live (find_open_issue_for_ip J client r.ip)
          (find_open_issue_for_ip-Returns J ready client r.ip))
        (λ found. h client found ready) w g

  module _ (same : Str → Str → Bool) (config : Config) (jira_client : Option JiraClient)
      (ready : Ready J jira_client) where
    apply_states-Live :
        (a b : ListingState) (r : IpRecord) (t : StateTransition) (stats : Stats)
        → Live (apply_states J same config jira_client a b r t stats)
    unfolding apply_states update_ip_listed update_ip_clean update_ip_zone_change
    apply_states-Live clean listed r t stats =
        let effect = effect_of (record stats { listed = 1 }) in
        in_turn
          (on_db J
            (update_ip_listed same r.id r.ip r.priority t.listed_zones config.listed_priority))
          (λ updated.
            with_issue J jira_client r (effect updated)
              (λ client. issue_for_listing J client r t (effect updated)))
          (update-Live _ _)
          (λ updated.
            with_issue-Live jira_client r (effect updated) _ ready
              (λ client. issue_for_listing-Live client r t (effect updated)))
    apply_states-Live listed clean r t stats =
        let effect = effect_of (record stats { cleaned = 1 }) in
        in_turn
          (on_db J (update_ip_clean same r.id r.ip r.old_priority config.clean_fallback_priority))
          (λ updated.
            with_issue J jira_client r (effect updated)
              (λ client. close_issue J client r (effect updated)))
          (update-Live _ _)
          (λ updated.
            with_issue-Live jira_client r (effect updated) _ ready
              (λ client. close_issue-Live client r (effect updated)))
    apply_states-Live listed listed r t stats =
        let effect = effect_of (record stats { listed = 1 }) in
        in_turn (on_db J (update_ip_zone_change same r.id r.ip t.listed_zones))
          (λ updated.
            with_issue J jira_client r (effect updated)
              (λ client. upsert_issue J client r t (effect updated)))
          (update-Live _ _)
          (λ updated.
            with_issue-Live jira_client r (effect updated) _ ready
              (λ client. upsert_issue-Live client r t (effect updated)))
    apply_states-Live clean clean r t stats = λ w g. g

    apply_transition-Live :
        (r : IpRecord) (t : StateTransition) (stats : Stats)
        → Live (apply_transition J same config jira_client r t stats)
    unfolding apply_transition
    apply_transition-Live r t stats w g =
        elim config.dry_run
          as (λ b. Succeeds Good (
            (if b
                then pure (effect_of stats false)
                else apply_states J same config jira_client t.previous_state t.new_state r t stats)
              w)) [
                | true ↦ g
                | false ↦ apply_states-Live t.previous_state t.new_state r t stats w g
              ]

    conclude-Live :
        (r : IpRecord) (rs : List DnsResult) (recovered : Bool) (t : Option StateTransition)
        → Live (conclude J same config jira_client r rs recovered t)
    unfolding conclude log_ip_check
    conclude-Live r rs recovered none w g = g
    conclude-Live r rs recovered (some t) w g =
        in_turn (apply_transition J same config jira_client r t (recovered_stats recovered)) _
          (apply_transition-Live r t (recovered_stats recovered)) (λ effect w g. g) w g

    module _ (class_name : Exn → Str) (resolve : Str → ℕ → Result (List Str)) (message : Exn → Str)
        (dns_timeout : ℕ) where
      checked-Live :
          (ip : Str) (cs : List Completion)
          → Within zones cs
          → Live (on_tracker J (check_ip_concurrent class_name resolve message ip dns_timeout cs))
      checked-Live ip cs within w g =
          rw
            (check_ip_concurrent-verdicts class_name resolve message ip dns_timeout cs w.tracker
              (Covers-KnownZones zones class_name resolve message cs w.tracker g.2 within))
            (
              g.0,
              g.1,
              Covers-tracked_after zones class_name resolve message ip dns_timeout cs w.tracker g.2
                  within,
            )

      -- A run over one record, whose completions stay within the zones, returns, and the tracker knows
      -- the zones afterwards.
      pub process_ip-Live :
          (r : IpRecord) (cs : List Completion) (now : ℕ)
          → Within zones cs
          → Live
              (process_ip J same config jira_client class_name resolve message dns_timeout r cs now)
      unfolding process_ip recovery
      process_ip-Live r cs now within =
          in_turn (recovery J config jira_client r) _
            (recover_if-Live (not config.dry_run && is_currently_listed r) r jira_client ready)
            (λ recovered. in_turn (on_tracker J (start_check J now)) _ (started-Live now) (λ _.
              in_turn
                (on_tracker J (check_ip_concurrent class_name resolve message r.ip dns_timeout cs))
                _ (checked-Live r.ip cs within)
                (λ rs. conclude-Live r rs recovered (determine_state_transition r rs))))
