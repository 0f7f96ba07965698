-- ===== src/Utils/Retry.antt =====
-- src/utils/retry.py: the decorator `exponential_backoff_retry`. A decorated call is an action on
-- a state `S`; `sleep` is what `time.sleep` does to that state. The line that is printed before a
-- sleep is not modelled.
pub mod Runs
pub mod Cost
use postal_dnsbl_monitor.Common.{
  ℕ, zero, suc, ◌+◌, codes, Bool, true, false, ◌&&◌, ◌||◌, Option, none, some, List, [], ◌∷◌, ◌==◌,
  ltb, if◌then◌else◌,
}
use postal_dnsbl_monitor.Common.Exec.{
  Exec, Exn, Result, ok, err, jira_error, index_error, other, raise,
}

-- `e.status_code in (429, 500, 502, 503, 504)`, for a `JIRAError`
unfoldable pub is_transient : Exn → Bool
is_transient (jira_error (some code)) =
    code == 429 || code == 500 || code == 502 || code == 503 || code == 504
is_transient _ = false

unfoldable pub get_elem? : List ℕ → ℕ → Option ℕ
get_elem? [] i = none
get_elem? (d ∷ ds) zero = some d
get_elem? (d ∷ ds) (suc i) = get_elem? ds i

module _ {S A : Type 0} (sleep : ℕ → S → S) (max_retries : ℕ) (delays : List ℕ) where
  -- `time.sleep(delays[attempt])` and `continue`
  unfoldable pub sleep_then : Option ℕ → Exec S A → Exec S A
  sleep_then none rest s = raise index_error s
  sleep_then (some delay) rest s = rest (sleep delay s)

  -- the `try` of one round; `rest` is the next round
  unfoldable pub handle : ℕ → Exec S A → Result A → Exec S A
  unfolding sleep_then
  handle attempt rest (ok a) s = (ok a, s)
  handle attempt rest (err e) s =
      if is_transient e && ltb attempt max_retries
      then sleep_then (get_elem? delays attempt) rest s
      else (err e, s)

module _ {S A : Type 0} (sleep : ℕ → S → S) (max_retries : ℕ) (delays : List ℕ)
    (func : Exec S A) where
  -- the loop from `attempt` on, with the rounds that are left; the text of the exception behind it
  -- leaves out the number of retries and the name of the function
  unfoldable pub rounds : ℕ → ℕ → Exec S A
  unfolding handle
  rounds zero attempt s = raise (other (codes "Max retries exhausted")) s
  rounds (suc left) attempt s =
      handle sleep max_retries delays attempt (rounds left (suc attempt)) (func s).0 (func s).1

  unfoldable pub exponential_backoff_retry : Exec S A
  unfolding rounds
  exponential_backoff_retry = rounds (max_retries + 1) 0

-- `exponential_backoff_retry()` with the defaults of its arguments
abbrev pub default_max_retries : ℕ
default_max_retries = 3

abbrev pub default_delays : List ℕ
default_delays = 2 ∷ 4 ∷ 8 ∷ []

unfoldable pub with_retry : {S A : Type 0} → (ℕ → S → S) → Exec S A → Exec S A
unfolding exponential_backoff_retry
with_retry sleep func = exponential_backoff_retry sleep default_max_retries default_delays func
