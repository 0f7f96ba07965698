-- ===== src/Main/Refinement.antt =====
-- What a run over one record does to the database, and what a dry run leaves alone.
use mathlib.Core.Path.{subst}
use postal_dnsbl_monitor.Common.{
  ℕ, Str, ◌≡◌, refl, sym, ap, ◌∙◌, Bool, true, false, Option, none, some, List, map, arith,
}
use postal_dnsbl_monitor.Common.Exec.{Exn, Result, ok, err, ◌>>=◌, ◌>>◌, continue}
use postal_dnsbl_monitor.Config.{Config}
use postal_dnsbl_monitor.Models.IpRecord.{IpRecord}
use postal_dnsbl_monitor.Models.StateTransition.{StateTransition, determine_state_transition}
use postal_dnsbl_monitor.Services.Database.{Db}
use postal_dnsbl_monitor.Services.DnsChecker.{Tracked, Completion, check_ip_concurrent}
use postal_dnsbl_monitor.Services.DnsChecker.Results.{KnownZones}
use postal_dnsbl_monitor.Services.DnsChecker.Verdicts.{result_of}
use postal_dnsbl_monitor.Services.JiraClient.{JiraServer, JiraClient}
use postal_dnsbl_monitor.Services.Logger.{log_ip_check}
use postal_dnsbl_monitor.Main.{
  World, Stats, effect_of, no_stats, Act, on_tracker, start_check, recover_if, recovery,
  apply_transition, conclude, process_ip,
}
use postal_dnsbl_monitor.Main.Frames.{
  recovery-Keeps, apart_from_jira, db_after, conclude-db, decision, Reaches, after_recovery,
}

module _ (J : JiraServer) (same : Str → Str → Bool) (config : Config)
    (jira_client : Option JiraClient) (class_name : Exn → Str)
    (resolve : Str → ℕ → Result (List Str)) (message : Exn → Str) (dns_timeout : ℕ) where
  abbrev pub run : IpRecord → List Completion → ℕ → Act J Stats
  run = process_ip J same config jira_client class_name resolve message dns_timeout

  abbrev pub transition : IpRecord → List Completion → Option StateTransition
  transition = decision J same config jira_client class_name resolve message dns_timeout

  abbrev rest : IpRecord → List Completion → ℕ → Bool → Act J Stats
  rest r cs now recovered = do
    on_tracker J (start_check J now)
    dns_results ← on_tracker J (check_ip_concurrent class_name resolve message r.ip dns_timeout cs)
    conclude J same config jira_client r dns_results recovered
        (determine_state_transition r dns_results)

  rest-Reaches :
      (r : IpRecord) (cs : List Completion) (now : ℕ) (x : Result Bool) (w w₁ : World J.State)
      → KnownZones class_name resolve message cs w.tracker
      → apart_from_jira J w₁ ≡ apart_from_jira J w
      → Reaches J same config jira_client class_name resolve message dns_timeout r cs w x
          (continue x (rest r cs now) w₁)
  rest-Reaches r cs now (err e) w w₁ k same_parts =
      (refl, ap (λ (p : Db × Tracked). p.0) same_parts)
  rest-Reaches r cs now (ok recovered) w w₁ k same_parts =
      ap (λ (o : Result Stats × World J.State). o.1.db)
        (after_recovery J same config jira_client class_name resolve message dns_timeout r cs now
          recovered w₁
          (subst (KnownZones class_name resolve message cs)
            (sym (ap (λ (p : Db × Tracked). p.1) same_parts)) k))
      ∙ conclude-db J same config jira_client r _ recovered (transition r cs) _
      ∙ ap (λ (p : Db × Tracked). db_after J same config r (transition r cs) p.0) same_parts

  -- A run over one record, with a tracker that knows the zones or none: if the recovery of a
  -- missing issue raises, the run raises the same and the database is as before; otherwise the
  -- database is what the transition makes of it, also where a call to Jira raises afterwards.
  pub process_ip-Reaches :
      (r : IpRecord) (cs : List Completion) (now : ℕ) (w : World J.State)
      → KnownZones class_name resolve message cs w.tracker
      → Reaches J same config jira_client class_name resolve message dns_timeout r cs w
          (recovery J config jira_client r w).0
          (run r cs now w)
  unfolding process_ip
  process_ip-Reaches r cs now w k =
      rest-Reaches r cs now (recovery J config jira_client r w).0 w
        (recovery J config jira_client r w).1 k (recovery-Keeps J config jira_client r w)

  pub recover_if-unwanted :
      (wanted : Bool) (r : IpRecord) (client : Option JiraClient) (w : World J.State)
      → wanted ≡ false
      → recover_if J wanted r client w ≡ (ok false, w)
  unfolding recover_if
  recover_if-unwanted wanted r none w h = refl
  recover_if-unwanted false r (some client) w h = refl
  recover_if-unwanted true r (some client) w h = cc

  pub recovery-dry_run :
      (r : IpRecord) (w : World J.State)
      → config.dry_run ≡ true
      → recovery J config jira_client r w ≡ (ok false, w)
  unfolding recovery
  recovery-dry_run r w dry = recover_if-unwanted _ r jira_client w (ground arith)

  -- What a dry run returns.
  abbrev pub dry_stats : Option StateTransition → Stats
  dry_stats none = record no_stats { unchanged = 1 }
  dry_stats (some t) = no_stats

  pub apply_transition-dry_run :
      (r : IpRecord) (t : StateTransition) (stats : Stats) (w : World J.State)
      → config.dry_run ≡ true
      → apply_transition J same config jira_client r t stats w ≡ (ok (effect_of stats false), w)
  unfolding apply_transition
  apply_transition-dry_run r t stats w dry = ground arith

  -- What a run leaves where it changes nothing.
  abbrev pub Untouched : Stats → World J.State → Result Stats × World J.State → Type 0
  Untouched stats w out = (out.0 ≡ ok stats) × (out.1.db ≡ w.db) × (out.1.jira ≡ w.jira)

  conclude-dry_run :
      (r : IpRecord) (cs : List Completion) (t : Option StateTransition) (w : World J.State)
      → config.dry_run ≡ true
      → Untouched (dry_stats t) w (
          conclude J same config jira_client r
            (map (result_of class_name resolve message r.ip dns_timeout) cs)
            false
            t
            w)
  unfolding conclude log_ip_check
  conclude-dry_run r cs none w dry = (refl, refl, refl)
  conclude-dry_run r cs (some t) w dry =
      rw (apply_transition-dry_run r t no_stats w dry) (refl, refl, refl)

  -- A dry run, with or without a Jira client, returns, and changes neither the database nor Jira;
  -- it counts a record with no transition as unchanged, and one with a transition not at all.
  pub process_ip-dry_run :
      (r : IpRecord) (cs : List Completion) (now : ℕ) (w : World J.State)
      → config.dry_run ≡ true
      → KnownZones class_name resolve message cs w.tracker
      → Untouched (dry_stats (transition r cs)) w (run r cs now w)
  unfolding process_ip
  process_ip-dry_run r cs now w dry k =
      rw
        (
          recovery-dry_run r w dry,
          after_recovery J same config jira_client class_name resolve message dns_timeout r cs now
              false w k,
        )
        (conclude-dry_run r cs (transition r cs) _ dry)
