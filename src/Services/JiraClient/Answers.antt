-- ===== src/Services/JiraClient/Answers.antt =====
-- A Jira server whose calls all return: the methods of the client return too.
use postal_dnsbl_monitor.Common.{ℕ, Str, Option, none, some, List, [], ◌∷◌}
use postal_dnsbl_monitor.Common.Ensures.{Succeeds, Leads, Leads-bind}
use postal_dnsbl_monitor.Common.Exec.{Exec, Result, ok, err, pure}
use postal_dnsbl_monitor.Utils.Retry.{handle, with_retry, default_max_retries, default_delays}
use postal_dnsbl_monitor.Services.JiraClient.{
  JiraServer, JiraClient, new_client, Fields, chosen, jql, ip_summary, done_transition_id,
  transition_if, find_open_issue_for_ip, create_issue, add_comment, transition_issue_to_done,
}

abbrev pub Always : {S : Type 0} → S → Type 0
Always s = Unit

-- An action that returns from any state.
abbrev pub Returns : {S A : Type 0} → Exec S A → Type 0
Returns m = Leads Always Always m

pub record Answers (J : JiraServer) : Type 0 where
  pub connects : (server user token : Str) → Returns (J.connect server user token)
  pub searches : (query : Str) (limit : ℕ) → Returns (J.search_issues query limit)
  pub creates : (fields : Fields) → Returns (J.create_issue fields)
  pub comments : (key text : Str) → Returns (J.add_comment key text)
  pub lists : (key : Str) → Returns (J.transitions key)
  pub moves : (key id : Str) → Returns (J.transition_issue key id)

handled :
    {S A : Type 0} (sleep : ℕ → S → S) (rest : Exec S A) (r : Result A) (s : S)
    → Succeeds Always (r, s)
    → Succeeds Always (handle sleep default_max_retries default_delays 0 rest r s)
unfolding handle
handled sleep rest (ok a) s h = tt
handled sleep rest (err e) s h = absurd h

-- A decorated method that returns at its first attempt.
with_retry-Returns :
    {S A : Type 0} (sleep : ℕ → S → S) (func : Exec S A)
    → Returns func
    → Returns (with_retry sleep func)
unfolding with_retry
with_retry-Returns sleep func h s p = handled sleep _ (func s).0 (func s).1 (h s p)

pub new_client-Returns :
    (J : JiraServer)
    → Answers J
    → (server user token project issue_type dns_failure_issue_type : Str)
      (excluded_statuses : List Str)
    → Returns
        (new_client J server user token project issue_type dns_failure_issue_type excluded_statuses)
unfolding new_client
new_client-Returns J answers server user token project issue_type dns_failure_issue_type
      excluded_statuses =
    Leads-bind Always Always Always (J.connect server user token) _
      (answers.connects server user token) (λ _ s p. tt)

module _ (J : JiraServer) (answers : Answers J) (client : JiraClient) where
  pub find_open_issue_for_ip-Returns : (ip : Str) → Returns (find_open_issue_for_ip J client ip)
  unfolding find_open_issue_for_ip
  find_open_issue_for_ip-Returns ip = with_retry-Returns J.sleep _ (
      Leads-bind Always Always Always (J.search_issues (jql client (ip_summary ip)) 10)
        (λ issues. pure (chosen issues)) (answers.searches (jql client (ip_summary ip)) 10)
        (λ issues s p. tt))

  pub create_issue-Returns :
      (ip : Str) (zones : List Str) (description : Str)
      → Returns (create_issue J client ip zones description)
  unfolding create_issue
  create_issue-Returns ip zones description = with_retry-Returns J.sleep _ (answers.creates _)

  pub add_comment-Returns : (key text : Str) → Returns (add_comment J client key text)
  unfolding add_comment
  add_comment-Returns key text = with_retry-Returns J.sleep _ (answers.comments key text)

  moved : (key : Str) (id : Option Str) → Returns (transition_if J client key id)
  moved key none s p = tt
  moved key (some []) s p = tt
  moved key (some (c ∷ id)) s p = answers.moves key (c ∷ id) s p

  pub transition_issue_to_done-Returns :
      (key : Str) → Returns (transition_issue_to_done J client key)
  unfolding transition_issue_to_done
  transition_issue_to_done-Returns key = with_retry-Returns J.sleep _ (
      Leads-bind Always Always Always (J.transitions key)
        (λ ts. transition_if J client key (done_transition_id ts)) (answers.lists key)
        (λ ts. moved key (done_transition_id ts)))
