-- ===== src/Main/Counting.antt =====
-- The statistics of a run over one record.
use postal_dnsbl_monitor.Common.{
  ℕ, ◌+◌, ◌≤◌, Str, ◌≡◌, refl, ◌⊎◌, Bool, true, false, Option, none, some, List, arith,
}
use postal_dnsbl_monitor.Common.Exec.{Exec, Exn, Result, ◌>>=◌, ◌>>◌}
use postal_dnsbl_monitor.Common.Ensures.{Ensures, Ensures-continue, Ensures-bind}
use postal_dnsbl_monitor.Config.{Config}
use postal_dnsbl_monitor.Models.DnsResult.{DnsResult}
use postal_dnsbl_monitor.Models.IpRecord.{IpRecord}
use postal_dnsbl_monitor.Models.StateTransition.{
  StateTransition, ListingState, clean, listed, determine_state_transition, aggregate_dns_results,
}
use postal_dnsbl_monitor.Models.StateTransition.Decision.{transition_to-Describes}
use postal_dnsbl_monitor.Services.DnsChecker.{Completion, check_ip_concurrent}
use postal_dnsbl_monitor.Services.JiraClient.{JiraServer, JiraClient, FoundIssue}
use postal_dnsbl_monitor.Services.Logger.{log_ip_check}
use postal_dnsbl_monitor.Main.{
  World, Act, Stats, on_tracker, start_check, recovery, Effect, effect_of, issue_for_listing,
  close_issue, upsert_issue, with_issue, apply_states, apply_transition, conclude, process_ip,
  recovered_stats,
}

-- The record counts once, and the counters of created and of updated issues are at most 1.
abbrev pub CountsOnce : Stats → Type 0
CountsOnce s =
    (s.listed + s.cleaned + s.unchanged ≡ 1) × (s.jira_created ≤ 1) × (s.jira_updated ≤ 1)

abbrev EffectCounts : Effect → Type 0
EffectCounts effect = CountsOnce effect.stats

counts_listed :
    (b updated : Bool)
    → EffectCounts (effect_of (record (recovered_stats b) { listed = 1 }) updated)
counts_listed true updated = ground arith
counts_listed false updated = ground arith

counts_cleaned :
    (b updated : Bool)
    → EffectCounts (effect_of (record (recovered_stats b) { cleaned = 1 }) updated)
counts_cleaned true updated = ground arith
counts_cleaned false updated = ground arith

counts_unchanged : (b : Bool) → CountsOnce (record (recovered_stats b) { unchanged = 1 })
counts_unchanged true = ground arith
counts_unchanged false = ground arith

some_side :
    (r : IpRecord) (rs : List DnsResult) (t : StateTransition)
    → determine_state_transition r rs ≡ some t
    → (t.previous_state ≡ listed) ⊎ (t.new_state ≡ listed)
unfolding determine_state_transition
some_side r rs t e = (transition_to-Describes r (aggregate_dns_results rs).0 e).some_listed

module _ (J : JiraServer) where
  issue_for_listing-Counts :
      (client : JiraClient) (r : IpRecord) (t : StateTransition) (effect : Effect)
      (found : Option FoundIssue) (w : World J.State)
      → EffectCounts effect
      → Ensures EffectCounts (issue_for_listing J client r t effect found w)
  unfolding issue_for_listing
  issue_for_listing-Counts client r t effect (some issue) w h = h
  issue_for_listing-Counts client r t effect none w h = ground arith

  close_issue-Counts :
      (client : JiraClient) (r : IpRecord) (effect : Effect) (found : Option FoundIssue)
      (w : World J.State)
      → EffectCounts effect
      → Ensures EffectCounts (close_issue J client r effect found w)
  unfolding close_issue
  close_issue-Counts client r effect none w h = h
  close_issue-Counts client r effect (some issue) w h = ground arith

  upsert_issue-Counts :
      (client : JiraClient) (r : IpRecord) (t : StateTransition) (effect : Effect)
      (found : Option FoundIssue) (w : World J.State)
      → EffectCounts effect
      → Ensures EffectCounts (upsert_issue J client r t effect found w)
  unfolding upsert_issue
  upsert_issue-Counts client r t effect (some issue) w h = ground arith
  upsert_issue-Counts client r t effect none w h = ground arith

  with_issue-Counts :
      (jira_client : Option JiraClient) (r : IpRecord) (effect : Effect)
      (k : JiraClient → Option FoundIssue → Exec (World J.State) Effect) (w : World J.State)
      → EffectCounts effect
      → ((client : JiraClient) (found : Option FoundIssue) (w : World J.State)
          → Ensures EffectCounts (k client found w))
      → Ensures EffectCounts (with_issue J jira_client r effect k w)
  unfolding with_issue
  with_issue-Counts none r effect k w h kk = h
  with_issue-Counts (some client) r effect k w h kk =
      Ensures-continue EffectCounts _ _ _ (kk client)

  module _ (same : Str → Str → Bool) (config : Config) (jira_client : Option JiraClient) where
    apply_states-Counts :
        (a b : ListingState) (r : IpRecord) (t : StateTransition) (recovered : Bool)
        (w : World J.State)
        → (a ≡ listed) ⊎ (b ≡ listed)
        → Ensures EffectCounts
            (apply_states J same config jira_client a b r t (recovered_stats recovered) w)
    unfolding apply_states
    apply_states-Counts clean listed r t recovered w h =
        Ensures-continue EffectCounts _ _ _ (λ updated v.
          with_issue-Counts jira_client r _ _ v (counts_listed recovered updated) (λ client found u.
            issue_for_listing-Counts client r t _ found u (counts_listed recovered updated)))
    apply_states-Counts listed clean r t recovered w h =
        Ensures-continue EffectCounts _ _ _ (λ updated v.
          with_issue-Counts jira_client r _ _ v (counts_cleaned recovered updated)
            (λ client found u.
              close_issue-Counts client r _ found u (counts_cleaned recovered updated)))
    apply_states-Counts listed listed r t recovered w h =
        Ensures-continue EffectCounts _ _ _ (λ updated v.
          with_issue-Counts jira_client r _ _ v (counts_listed recovered updated) (λ client found u.
            upsert_issue-Counts client r t
              (effect_of (record (recovered_stats recovered) { listed = 1 }) updated) found u
              (counts_listed recovered updated)))
    apply_states-Counts clean clean r t recovered w h = ground arith

    apply_transition-Counts :
        (r : IpRecord) (t : StateTransition) (recovered : Bool) (w : World J.State)
        → config.dry_run ≡ false
        → (t.previous_state ≡ listed) ⊎ (t.new_state ≡ listed)
        → Ensures EffectCounts
            (apply_transition J same config jira_client r t (recovered_stats recovered) w)
    unfolding apply_transition
    apply_transition-Counts r t recovered w wet h =
        rw wet (apply_states-Counts t.previous_state t.new_state r t recovered w h)

    conclude-Counts :
        (r : IpRecord) (rs : List DnsResult) (recovered : Bool) (t : Option StateTransition)
        (w : World J.State)
        → config.dry_run ≡ false
        → determine_state_transition r rs ≡ t
        → Ensures CountsOnce (conclude J same config jira_client r rs recovered t w)
    unfolding conclude log_ip_check
    conclude-Counts r rs recovered none w wet e = counts_unchanged recovered
    conclude-Counts r rs recovered (some t) w wet e =
        Ensures-bind EffectCounts CountsOnce _ _ _
          (apply_transition-Counts r t recovered w wet (some_side r rs t e)) (λ effect v q. q)

    module _ (class_name : Exn → Str) (resolve : Str → ℕ → Result (List Str)) (message : Exn → Str)
        (dns_timeout : ℕ) (r : IpRecord) (cs : List Completion) (now : ℕ)
        (wet : config.dry_run ≡ false) where
      abbrev checks_and_conclusion : Bool → Act J Stats
      checks_and_conclusion recovered = do
        dns_results ←
            on_tracker J (check_ip_concurrent class_name resolve message r.ip dns_timeout cs)
        conclude J same config jira_client r dns_results recovered
            (determine_state_transition r dns_results)

      checks-Counts :
          (recovered : Bool) (w : World J.State)
          → Ensures CountsOnce (checks_and_conclusion recovered w)
      checks-Counts recovered w =
          Ensures-continue CountsOnce _ _ _ (λ rs x. conclude-Counts r rs recovered _ x wet refl)

      start-Counts :
          (recovered : Bool) (w : World J.State)
          → Ensures CountsOnce
              ((on_tracker J (start_check J now) >> checks_and_conclusion recovered) w)
      start-Counts recovered w =
          Ensures-continue CountsOnce _ _ _ (λ _ u. checks-Counts recovered u)

      process-Counts :
          (w : World J.State)
          → Ensures CountsOnce (
              process_ip J same config jira_client class_name resolve message dns_timeout r cs now
                w)
      unfolding process_ip
      process-Counts w =
          let (recovered, w₁) = recovery J config jira_client r w in
          Ensures-continue CountsOnce recovered
            (λ b. on_tracker J (start_check J now) >> checks_and_conclusion b) w₁ start-Counts

    -- A run that is not dry and returns counts its record once, as listed, cleaned or unchanged,
    -- and its counters of created and of updated issues are at most 1.
    pub process_ip-CountsOnce :
        (class_name : Exn → Str) (resolve : Str → ℕ → Result (List Str)) (message : Exn → Str)
        (dns_timeout : ℕ) (r : IpRecord) (cs : List Completion) (now : ℕ) (w : World J.State)
        → config.dry_run ≡ false
        → Ensures CountsOnce
            (process_ip J same config jira_client class_name resolve message dns_timeout r cs now w)
    process_ip-CountsOnce class_name resolve message dns_timeout r cs now w wet =
        process-Counts class_name resolve message dns_timeout r cs now wet w
