-- ===== src/Services/JiraClient/Cost.antt =====
-- The time that the methods of the client sleep between their attempts.
use postal_dnsbl_monitor.Common.{ℕ, ◌+◌, Str, ◌≡◌, Option, none, some, List, [], ◌∷◌, arith, codes}
use postal_dnsbl_monitor.Common.Exec.{Exec, pure, ◌>>=◌}
use postal_dnsbl_monitor.Utils.Retry.{with_retry}
use postal_dnsbl_monitor.Utils.Retry.Cost.{Costs, Costs-bind, with_retry-Costs}
use postal_dnsbl_monitor.Services.JiraClient.{
  JiraServer, JiraClient, FoundIssue, Fields, chosen, jql, ip_summary, done_transition_id,
  transition_if, find_open_issue_for_ip, create_issue, add_comment, transition_issue_to_done,
  find_run_report_issue, upsert_report, create_or_update_run_report, report_content,
}

-- A clock of the server's state that `sleep` alone advances, by the seconds that it is given.
pub record IsClock (J : JiraServer) (clock : J.State → ℕ) : Type 0 where
  pub slept : (d : ℕ) (s : J.State) → clock (J.sleep d s) ≡ clock s + d
  pub search :
      (query : Str) (limit : ℕ) (s : J.State) → clock (J.search_issues query limit s).1 ≡ clock s
  pub create : (fields : Fields) (s : J.State) → clock (J.create_issue fields s).1 ≡ clock s
  pub comment : (key text : Str) (s : J.State) → clock (J.add_comment key text s).1 ≡ clock s
  pub list : (key : Str) (s : J.State) → clock (J.transitions key s).1 ≡ clock s
  pub move : (key id : Str) (s : J.State) → clock (J.transition_issue key id s).1 ≡ clock s

module _ (J : JiraServer) (clock : J.State → ℕ) (timed : IsClock J clock)
    (client : JiraClient) where
  -- A method whose attempts do not sleep.
  method :
      {A : Type 0} (func : Exec J.State A)
      → Costs clock 0 func
      → Costs clock 14 (with_retry J.sleep func)
  method func h = with_retry-Costs J.sleep clock timed.slept 0 func h

  searched :
      (query : Str) → Costs clock 0 (do issues ← J.search_issues query 10; pure (chosen issues))
  searched query =
      Costs-bind clock 0 0 (J.search_issues query 10) (λ issues. pure (chosen issues))
        (λ s. omega (arith, timed.search query 10 s)) (λ issues s. omega arith)

  pub find_open_issue_for_ip-Costs :
      (ip : Str) → Costs clock 14 (find_open_issue_for_ip J client ip)
  unfolding find_open_issue_for_ip
  find_open_issue_for_ip-Costs ip = method _ (searched (jql client (ip_summary ip)))

  pub create_issue-Costs :
      (ip : Str) (zones : List Str) (description : Str)
      → Costs clock 14 (create_issue J client ip zones description)
  unfolding create_issue
  create_issue-Costs ip zones description = method _ (λ s. omega (arith, timed.create _ s))

  pub add_comment-Costs : (key text : Str) → Costs clock 14 (add_comment J client key text)
  unfolding add_comment
  add_comment-Costs key text = method _ (λ s. omega (arith, timed.comment key text s))

  moved : (key : Str) (id : Option Str) → Costs clock 0 (transition_if J client key id)
  moved key none s = omega arith
  moved key (some []) s = omega arith
  moved key (some (c ∷ id)) s = omega (arith, timed.move key (c ∷ id) s)

  pub transition_issue_to_done-Costs :
      (key : Str) → Costs clock 14 (transition_issue_to_done J client key)
  unfolding transition_issue_to_done
  transition_issue_to_done-Costs key = method _ (
      Costs-bind clock 0 0 (J.transitions key)
        (λ ts. transition_if J client key (done_transition_id ts))
        (λ s. omega (arith, timed.list key s)) (λ ts. moved key (done_transition_id ts)))

  found_report : Costs clock 14 (find_run_report_issue J client)
  unfolding find_run_report_issue
  found_report = method _ (searched (jql client (codes "Run Report")))

  reported :
      (content : Str) (found : Option FoundIssue)
      → Costs clock 14 (upsert_report J client content found)
  reported content (some issue) s =
      Costs-bind clock 14 0 (add_comment J client issue.key content) (λ _. pure issue.key)
        (add_comment-Costs issue.key content) (λ _ s. omega arith) s
  reported content none s = omega (arith, timed.create _ s)

  -- On such a clock the run report sleeps 126 seconds at most: each of its four attempts may use up the retries of
  -- the search and of the comment.
  pub create_or_update_run_report-Costs :
      (json : Str) (yaml : Option Str) (timestamp : Str)
      → Costs clock 126 (create_or_update_run_report J client json yaml timestamp)
  unfolding create_or_update_run_report
  create_or_update_run_report-Costs json yaml timestamp =
      with_retry-Costs J.sleep clock timed.slept 28 _ (
        Costs-bind clock 14 14 (find_run_report_issue J client)
          (upsert_report J client (report_content json yaml timestamp)) found_report
          (reported (report_content json yaml timestamp)))
