-- ===== src/Main/Idle.antt =====
-- A clean record that nothing lists is left alone, and so is Jira.
use postal_dnsbl_monitor.Common.{
  ℕ, Str, [], ◌∷◌, ◌≡◌, refl, sym, ap, ◌∙◌, SameTexts, contains, Bool, false, Option, none, List,
  arith,
}
use postal_dnsbl_monitor.Common.Exec.{Exn, Result, ok}
use postal_dnsbl_monitor.Config.{Config}
use postal_dnsbl_monitor.Models.IpRecord.{
  IpRecord, is_currently_listed, get_listed_zones, zones_of, non_empty,
}
use postal_dnsbl_monitor.Models.StateTransition.Decision.{transition_to-none_iff}
use postal_dnsbl_monitor.Common.Sorting.{sorted}
use postal_dnsbl_monitor.Common.Sorting.Laws.{contains-sorted}
use postal_dnsbl_monitor.Main.Runs.{listing, transition-listing}
use postal_dnsbl_monitor.Services.DnsChecker.{Completion}
use postal_dnsbl_monitor.Services.DnsChecker.Results.{KnownZones}
use postal_dnsbl_monitor.Services.JiraClient.{JiraServer, JiraClient}
use postal_dnsbl_monitor.Services.Logger.{log_ip_check}
use postal_dnsbl_monitor.Main.{World, no_stats, recovery, process_ip, conclude}
use postal_dnsbl_monitor.Main.Frames.{after_recovery}
use postal_dnsbl_monitor.Main.Refinement.{run, transition, Untouched, recover_if-unwanted}

module _ (J : JiraServer) (same : Str → Str → Bool) (config : Config)
    (jira_client : Option JiraClient) (class_name : Exn → Str)
    (resolve : Str → ℕ → Result (List Str)) (message : Exn → Str) (dns_timeout : ℕ) where
  not_wanted :
      (r : IpRecord) (w : World J.State)
      → is_currently_listed r ≡ false
      → recovery J config jira_client r w ≡ (ok false, w)
  unfolding recovery
  not_wanted r w clean =
      recover_if-unwanted J same config jira_client class_name resolve message dns_timeout _ r
        jira_client w (ground arith)

  no_zones : (r : IpRecord) → is_currently_listed r ≡ false → SameTexts (get_listed_zones r) []
  unfolding is_currently_listed get_listed_zones
  no_zones r clean z = unlisted_text r.blocking_lists clean
    where
      unlisted_text : (s : Str) → non_empty s ≡ false → contains (zones_of s) z ≡ contains [] z
      unlisted_text [] h = unfold zones_of in refl
      unlisted_text (c ∷ s) h = cc

  no_transition :
      (r : IpRecord) (cs : List Completion)
      → is_currently_listed r ≡ false
      → listing J same config jira_client class_name resolve message dns_timeout r.ip cs ≡ []
      → transition J same config jira_client class_name resolve message dns_timeout r cs ≡ none
  no_transition r cs clean unlisted =
      sym (transition-listing J same config jira_client class_name resolve message dns_timeout r cs)
      ∙ (transition_to-none_iff r (
            sorted
              (listing J same config jira_client class_name resolve message dns_timeout r.ip cs))).1
          (λ z.
            no_zones r clean z
            ∙ sym (ap (λ zs. contains zs z) unlisted)
            ∙ sym (
                contains-sorted
                  (listing J same config jira_client class_name resolve message dns_timeout r.ip cs)
                  z))

  -- A run over a record that names no zone, of an address that no zone lists, with a tracker that
  -- knows the zones or none, returns, counts it as unchanged, and changes neither the database nor
  -- the state of Jira.
  pub process_ip-idle :
      (r : IpRecord) (cs : List Completion) (now : ℕ) (w : World J.State)
      → is_currently_listed r ≡ false
      → listing J same config jira_client class_name resolve message dns_timeout r.ip cs ≡ []
      → KnownZones class_name resolve message cs w.tracker
      → Untouched J same config jira_client class_name resolve message dns_timeout
          (record no_stats { unchanged = 1 })
          w
          (run J same config jira_client class_name resolve message dns_timeout r cs now w)
  unfolding process_ip conclude log_ip_check
  process_ip-idle r cs now w clean unlisted known =
      rw
        (
          not_wanted r w clean,
          after_recovery J same config jira_client class_name resolve message dns_timeout r cs now
              false w known,
          no_transition r cs clean unlisted,
        )
        (refl, refl, refl)
