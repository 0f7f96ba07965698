-- ===== src/Services/JiraClient.antt =====
-- src/services/jira_client.py. The library `jira` and the server behind it are the parameter
-- `JiraServer`. Log lines are not modelled.
pub mod Latest
pub mod Answers
pub mod Cost
use postal_dnsbl_monitor.Common.{
  ℕ, zero, suc, Str, codes, Bool, true, false, Option, none, some, List, [], ◌∷◌, ◌++◌, map,
  if◌then◌else◌, leb, ◌&&◌, ◌+◌, str_eq,
}
use postal_dnsbl_monitor.Common.Order.{leb_str}
use postal_dnsbl_monitor.Common.Split.{join}
use postal_dnsbl_monitor.Common.Sorting.{sorted}
use postal_dnsbl_monitor.Common.Exec.{Exec, Result, ok, pure, ◌>>=◌, ◌>>◌}
use postal_dnsbl_monitor.Models.IpRecord.{comma, non_empty}
use postal_dnsbl_monitor.Services.Database.{joined}
use postal_dnsbl_monitor.Utils.Retry.{with_retry}

-- An issue as a search returns it, with the attributes that the client reads.
pub record Issue : Type 0 where
  pub key : Str
  pub summary : Str
  pub status : Str
  pub created : Str

-- the dict of a new issue
pub record Fields : Type 0 where
  pub project : Str
  pub summary : Str
  pub description : Str
  pub issue_type : Str
  pub labels : List Str

pub record Transition : Type 0 where
  pub id : Str
  pub name : Str

-- The calls of `jira.JIRA` over the state of the server, each of which may raise; `sleep` is the
-- passing of the given seconds.
pub record JiraServer : Type 1 where
  pub State : Type 0
  pub connect : Str → Str → Str → Exec State Unit
  pub search_issues : Str → ℕ → Exec State (List Issue)
  pub create_issue : Fields → Exec State Str
  pub add_comment : Str → Str → Exec State Unit
  pub transitions : Str → Exec State (List Transition)
  pub transition_issue : Str → Str → Exec State Unit
  pub sleep : ℕ → State → State

pub record JiraClient : Type 0 where
  pub project : Str
  pub issue_type : Str
  pub dns_failure_issue_type : Str
  pub excluded_statuses : List Str

-- the dict of an issue that was found
pub record FoundIssue : Type 0 where
  pub key : Str
  pub summary : Str
  pub status : Str

unfoldable pub insert_latest : Issue → List Issue → List Issue
insert_latest i [] = i ∷ []
insert_latest i (j ∷ issues) =
    let rest = insert_latest i issues in
    if leb_str j.created i.created then i ∷ j ∷ issues else j ∷ rest

-- `sorted(issues, key=lambda i: i.fields.created, reverse=True)`, which is stable
unfoldable pub latest_first : List Issue → List Issue
latest_first [] = []
latest_first (i ∷ issues) = insert_latest i (latest_first issues)

abbrev pub found_issue : Issue → FoundIssue
found_issue i = record { key = i.key; summary = i.summary; status = i.status }

abbrev pub head_issue : List Issue → Option FoundIssue
head_issue [] = none
head_issue (i ∷ issues) = some (found_issue i)

-- the issue that a search settles on
unfoldable pub chosen : List Issue → Option FoundIssue
unfolding latest_first insert_latest
chosen [] = none
chosen (i ∷ []) = some (found_issue i)
chosen (i ∷ j ∷ issues) = head_issue (latest_first (i ∷ j ∷ issues))

abbrev quoted : Str → Str
quoted s = b'"' ∷ (s ++ (b'"' ∷ []))

-- `project = "…" AND status NOT IN (…) AND summary ~ "…"`
unfoldable pub jql : JiraClient → Str → Str
jql client summary =
    codes "project = "
    ++ (quoted client.project
        ++ (codes " AND status NOT IN ("
            ++ (join (comma ∷ []) (map quoted client.excluded_statuses)
                ++ (codes ") AND summary ~ " ++ quoted summary))))

unfoldable pub ip_summary : Str → Str
ip_summary ip = codes "IP " ++ ip

unfoldable pub issue_summary : Str → Str → Str
issue_summary ip sorted_zones = codes "IP " ++ (ip ++ (codes " blacklisted by " ++ sorted_zones))

-- `"\n".join(f"- {zone}" for zone in zones)`
unfoldable pub bullets : List Str → Str
bullets zones = join (10 ∷ []) (map (λ zone. codes "- " ++ zone) zones)

unfoldable pub failure_description : Str → List Str → Str
unfolding bullets
failure_description percentage failed_zones =
    codes "MAJOR MALFUNCTION: "
    ++ (percentage
        ++ (codes "% of DNSBL zones returned UNKNOWN.\n\nFailed zones:\n" ++ bullets failed_zones))

-- `c.lower()`, for an ASCII letter; no other character becomes one of those of "done"
abbrev pub lower : ℕ → ℕ
lower c = if leb b'A' c && leb c b'Z' then c + 32 else c

-- the loop for the transition named "done"
unfoldable pub done_transition_id : List Transition → Option Str
done_transition_id [] = none
done_transition_id (t ∷ ts) =
    let rest = done_transition_id ts in
    if str_eq (map lower t.name) (codes "done") then some t.id else rest

-- the sections of the report, and the note below them
unfoldable pub yaml_section : Option Str → Str
yaml_section (some (c ∷ yaml)) =
    codes "h3. Suggested DNSBL Configuration (Pruned)\n\n{code:yaml}\n"
    ++ ((c ∷ yaml)
        ++ (codes "\n{code}\n\n"
            ++ (0x26a0
                ∷ 0xfe0f
                ∷ codes
                    " *Action Required:* Review the pruned configuration above and update DNSBL_ZONES environment variable if broken endpoints should be removed.\n")))
yaml_section _ = codes "✅ *All DNSBLs healthy* - No configuration changes needed.\n"

unfoldable pub report_content : Str → Option Str → Str → Str
report_content json_report yaml_report execution_timestamp =
    codes "*Execution completed at:* "
    ++ (execution_timestamp
        ++ (codes "\n\nh3. DNSBL Health Summary\n\n{code:json}\n"
            ++ (json_report ++ (codes "\n{code}\n\n" ++ yaml_section yaml_report))))

unfoldable pub report_description : Str → Str
report_description content =
    codes
      "This issue tracks DNSBL health monitoring diagnostics and configuration recommendations.\n\nEach execution appends a new report as a comment.\n\n"
    ++ content

-- `JiraClient(server, user, token, …)`, which calls `JIRA(server, basic_auth=(user, token))`
unfoldable pub new_client :
    (J : JiraServer) → Str → Str → Str → Str → Str → Str → List Str → Exec J.State JiraClient
new_client J server user token project issue_type dns_failure_issue_type excluded_statuses = do
  J.connect server user token
  pure (record {
    project = project;
    issue_type = issue_type;
    dns_failure_issue_type = dns_failure_issue_type;
    excluded_statuses = excluded_statuses;
  })

module _ (J : JiraServer) (client : JiraClient) where
  -- each method is decorated by `exponential_backoff_retry()`
  abbrev retried : {A : Type 0} → Exec J.State A → Exec J.State A
  retried = with_retry J.sleep

  unfoldable pub find_open_issue_for_ip : Str → Exec J.State (Option FoundIssue)
  find_open_issue_for_ip ip =
      retried (do issues ← J.search_issues (jql client (ip_summary ip)) 10; pure (chosen issues))

  unfoldable pub create_issue : Str → List Str → Str → Exec J.State Str
  create_issue ip zones description = retried (
      J.create_issue (record {
        project = client.project;
        summary = issue_summary ip (joined zones);
        description = description;
        issue_type = client.issue_type;
        labels = [];
      }))

  unfoldable pub add_comment : Str → Str → Exec J.State Unit
  add_comment issue_key comment = retried (J.add_comment issue_key comment)

  -- `if not done_transition_id: return`
  abbrev pub transition_if : Str → Option Str → Exec J.State Unit
  transition_if issue_key none = pure tt
  transition_if issue_key (some []) = pure tt
  transition_if issue_key (some (c ∷ id)) = J.transition_issue issue_key (c ∷ id)

  unfoldable pub transition_issue_to_done : Str → Exec J.State Unit
  transition_issue_to_done issue_key = retried (do
    transitions ← J.transitions issue_key
    transition_if issue_key (done_transition_id transitions))

  -- `percentage` is the text of `unknown_percentage` with one decimal
  unfoldable pub create_dns_failure_issue : Str → List Str → Exec J.State Str
  create_dns_failure_issue percentage failed_zones = retried (
      J.create_issue (record {
        project = client.project;
        summary =
            codes "DNS Infrastructure Failure Detected - "
            ++ (percentage ++ codes "% zones unreachable");
        description = failure_description percentage failed_zones;
        issue_type = client.dns_failure_issue_type;
        labels = codes "MAJOR MALFUNCTION" ∷ [];
      }))

  unfoldable pub find_run_report_issue : Exec J.State (Option FoundIssue)
  find_run_report_issue =
      retried
        (do issues ← J.search_issues (jql client (codes "Run Report")) 10; pure (chosen issues))

  abbrev pub upsert_report : Str → Option FoundIssue → Exec J.State Str
  upsert_report content (some issue) = add_comment issue.key content >> pure issue.key
  upsert_report content none = J.create_issue (record {
    project = client.project;
    summary = codes "Run Report";
    description = report_description content;
    issue_type = client.issue_type;
    labels = codes "run-report" ∷ codes "dnsbl-health" ∷ [];
  })

  unfoldable pub create_or_update_run_report : Str → Option Str → Str → Exec J.State Str
  create_or_update_run_report json_report yaml_report execution_timestamp = retried (do
    existing_issue ← find_run_report_issue
    upsert_report (report_content json_report yaml_report execution_timestamp) existing_issue)
