-- ===== src/Main/Records.antt =====
-- The data of `process_ip`: its statistics, its world, and the texts that it sends to Jira.
use postal_dnsbl_monitor.Common.{
  ℕ, Str, codes, Bool, true, false, List, [], ◌∷◌, ◌++◌, length, if◌then◌else◌,
}
use postal_dnsbl_monitor.Common.Show.{show}
use postal_dnsbl_monitor.Common.Split.{join}
use postal_dnsbl_monitor.Models.DnsResult.{DnsResult, is_unknown}
use postal_dnsbl_monitor.Models.StateTransition.{StateTransition}
use postal_dnsbl_monitor.Services.Database.{Db}
use postal_dnsbl_monitor.Services.DnsChecker.{Tracked}
use postal_dnsbl_monitor.Services.JiraClient.{bullets}
use postal_dnsbl_monitor.Services.Logger.{JiraAction, LogEntry, no_action, created_issue_recovery}

pub record Stats : Type 0 where
  pub listed : ℕ
  pub cleaned : ℕ
  pub unchanged : ℕ
  pub jira_created : ℕ
  pub jira_updated : ℕ

abbrev pub no_stats : Stats
no_stats = record { listed = 0; cleaned = 0; unchanged = 0; jira_created = 0; jira_updated = 0 }

pub record World (J : Type 0) : Type 0 where
  pub db : Db
  pub jira : J
  pub tracker : Tracked
  pub log : List LogEntry

-- what a transition has done so far: `stats`, `db_updated` and `jira_action`
pub record Effect : Type 0 where
  pub stats : Stats
  pub db_updated : Bool
  pub jira_action : JiraAction

abbrev pub effect_of : Stats → Bool → Effect
effect_of stats db_updated = record {
  stats = stats;
  db_updated = db_updated;
  jira_action = no_action;
}

unfoldable pub description : Str → Str → List Str → Str → Str
description ip verb zones note =
    codes "IP "
    ++ (ip
        ++ (verb
            ++ (show (length zones) ++ (codes " DNSBL zone(s):\n" ++ (bullets zones ++ note)))))

abbrev pub is_listed_on : Str
is_listed_on = codes " is listed on "

abbrev pub has_been_listed_on : Str
has_been_listed_on = codes " has been listed on "

abbrev pub recovery_note : Str
recovery_note =
    codes "\n\nNote: This issue was created during recovery (IP was already listed in database)."

abbrev pub missing_note : Str
missing_note =
    codes "\n\nNote: This issue was created during zone change detection (missing initial issue)."

unfoldable pub clean_comment : Str → Str
clean_comment ip = codes "IP " ++ (ip ++ codes " is now clean (no longer listed). Closing ticket.")

-- `", ".join(zones)`
abbrev pub commas : List Str → Str
commas zones = join (codes ", ") zones

-- one line of the comment, if there are such zones
abbrev pub delta_line : Str → List Str → Str
delta_line label [] = []
delta_line label (z ∷ zones) = label ++ (commas (z ∷ zones) ++ (10 ∷ []))

unfoldable pub change_comment : StateTransition → Str
change_comment t =
    codes "Zone membership changed:\n"
    ++ (delta_line (codes "Added: ") t.zone_delta.added
        ++ (delta_line (codes "Removed: ") t.zone_delta.removed
            ++ (codes "Currently listed on: " ++ commas t.listed_zones)))

-- `[r.zone for r in dns_results if r.is_unknown()]`
unfoldable pub unknown_zones : List DnsResult → List Str
unknown_zones [] = []
unknown_zones (r ∷ rs) = let rest = unknown_zones rs in if is_unknown r then r.zone ∷ rest else rest

abbrev pub recovered_action : Bool → JiraAction
recovered_action true = created_issue_recovery
recovered_action false = no_action

abbrev pub recovered_stats : Bool → Stats
recovered_stats true = record no_stats { jira_created = 1 }
recovered_stats false = no_stats
