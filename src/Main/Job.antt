-- ===== src/Main/Job.antt =====
-- The loop of `main` over the records, with the totals of their statistics. The completions and the
-- clock of each record are arguments. An exception ends the loop, and with it the job.
use mathlib.Core.Path.{subst}
use postal_dnsbl_monitor.Common.{
  ℕ, suc, ◌+◌, ◌≤◌, Str, ◌≡◌, Bool, false, Option, List, [], ◌∷◌, length, arith,
}
use postal_dnsbl_monitor.Common.Exec.{Exn, Result, pure, ◌>>=◌}
use postal_dnsbl_monitor.Config.{Config}
use postal_dnsbl_monitor.Models.IpRecord.{IpRecord}
use postal_dnsbl_monitor.Services.DnsChecker.{Completion}
use postal_dnsbl_monitor.Services.JiraClient.{JiraServer, JiraClient}
use postal_dnsbl_monitor.Main.{World, Act, Stats, no_stats, process_ip}
use postal_dnsbl_monitor.Common.Ensures.{Ensures, Ensures-bind}
use postal_dnsbl_monitor.Main.Counting.{CountsOnce, process_ip-CountsOnce}

-- A record, and how its checks will go.
pub record Task : Type 0 where
  pub ip_record : IpRecord
  pub completions : List Completion
  pub now : ℕ

-- `for key in total_stats: total_stats[key] += stats.get(key, 0)`
unfoldable pub add_stats : Stats → Stats → Stats
add_stats total stats = record {
  listed = total.listed + stats.listed;
  cleaned = total.cleaned + stats.cleaned;
  unchanged = total.unchanged + stats.unchanged;
  jira_created = total.jira_created + stats.jira_created;
  jira_updated = total.jira_updated + stats.jira_updated;
}

-- The totals count `n` records, each once.
abbrev pub CountsAll : ℕ → Stats → Type 0
CountsAll n s =
    (s.listed + s.cleaned + s.unchanged ≡ n) × (s.jira_created ≤ n) × (s.jira_updated ≤ n)

add_stats-CountsAll :
    (n : ℕ) (total stats : Stats)
    → CountsAll n total
    → CountsOnce stats
    → CountsAll (n + 1) (add_stats total stats)
unfolding add_stats
add_stats-CountsAll n total stats h k =
    (omega (arith, h.0, k.0), omega (arith, h.1, k.1), omega (arith, h.2, k.2))

shift : (n k : ℕ) → (n + 1) + k ≡ n + suc k
shift n k = omega arith

from_zero : (k : ℕ) → 0 + k ≡ k
from_zero k = omega arith

module _ (J : JiraServer) (same : Str → Str → Bool) (config : Config)
    (jira_client : Option JiraClient) (class_name : Exn → Str)
    (resolve : Str → ℕ → Result (List Str)) (message : Exn → Str) (dns_timeout : ℕ) where
  unfoldable pub process_all : Stats → List Task → Act J Stats
  process_all total_stats [] = pure total_stats
  process_all total_stats (t ∷ tasks) = do
    stats ←
        process_ip J same config jira_client class_name resolve message dns_timeout t.ip_record
          t.completions t.now
    process_all (add_stats total_stats stats) tasks

  process_all-CountsAll :
      (n : ℕ) (total : Stats) (tasks : List Task) (w : World J.State)
      → config.dry_run ≡ false
      → CountsAll n total
      → Ensures (CountsAll (n + length tasks)) (process_all total tasks w)
  unfolding process_all
  process_all-CountsAll n total [] w wet h = ground arith
  process_all-CountsAll n total (t ∷ tasks) w wet h =
      Ensures-bind CountsOnce (CountsAll (n + length (t ∷ tasks))) _ _ _
        (process_ip-CountsOnce J same config jira_client class_name resolve message dns_timeout
          t.ip_record t.completions t.now w wet)
        (λ stats v once.
          subst (λ m. Ensures (CountsAll m) (process_all (add_stats total stats) tasks v))
            (shift n (length tasks))
            (process_all-CountsAll (n + 1) (add_stats total stats) tasks v wet
              (add_stats-CountsAll n total stats h once)))

  -- A job that is not dry and whose loop ends counts each record once: the listed, the cleaned and
  -- the unchanged ones add up to the records, and the counters of the created and of the updated
  -- issues are at most the number of the records.
  pub process_all-counts :
      (tasks : List Task) (w : World J.State)
      → config.dry_run ≡ false
      → Ensures (CountsAll (length tasks)) (process_all no_stats tasks w)
  process_all-counts tasks w wet =
      subst (λ m. Ensures (CountsAll m) (process_all no_stats tasks w)) (from_zero (length tasks))
        (process_all-CountsAll 0 no_stats tasks w wet (ground arith))
