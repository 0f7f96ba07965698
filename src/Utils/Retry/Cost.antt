-- ===== src/Utils/Retry/Cost.antt =====
-- The time that decorated calls sleep, on a clock that `sleep` advances.
use postal_dnsbl_monitor.Common.{ℕ, suc, ◌+◌, ◌*◌, ◌≤◌, ◌≡◌, refl, some, arith}
use postal_dnsbl_monitor.Common.Exec.{Exec, Result, ok, err, continue, ◌>>=◌}
use postal_dnsbl_monitor.Utils.Retry.{
  get_elem?, handle, rounds, exponential_backoff_retry, with_retry, default_max_retries,
  default_delays,
}

-- An action that advances the clock by at most `b`, whether it returns or raises.
abbrev pub Costs : {S A : Type 0} → (S → ℕ) → ℕ → Exec S A → Type 0
Costs {S} clock b m = (s : S) → clock (m s).1 ≤ clock s + b

module _ {S A B : Type 0} (clock : S → ℕ) where
  pub Costs-continue :
      (b c : ℕ) (r : Result A) (k : A → Exec S B) (s s' : S)
      → clock s' ≤ clock s + b
      → ((a : A) → Costs clock c (k a))
      → clock (continue r k s').1 ≤ clock s + (b + c)
  Costs-continue b c (ok a) k s s' h kk = omega (arith, kk a s', h)
  Costs-continue b c (err e) k s s' h kk = omega (arith, h)

  pub Costs-bind :
      (b c : ℕ) (m : Exec S A) (k : A → Exec S B)
      → Costs clock b m
      → ((a : A) → Costs clock c (k a))
      → Costs clock (b + c) (m >>= k)
  Costs-bind b c m k h kk s = Costs-continue b c (m s).0 k s (m s).1 (h s) kk

pub Costs-le :
    {S A : Type 0} (clock : S → ℕ) {b c : ℕ} (m : Exec S A)
    → b ≤ c
    → Costs clock b m
    → Costs clock c m
Costs-le clock m le h s = omega (arith, h s, le)

module _ {S A : Type 0} (sleep : ℕ → S → S) (clock : S → ℕ)
    (slept : (d : ℕ) (s : S) → clock (sleep d s) ≡ clock s + d) (b : ℕ) (func : Exec S A)
    (cost : Costs clock b func) where
  abbrev attempts : ℕ → ℕ → Exec S A
  attempts = rounds sleep default_max_retries default_delays func

  handled :
      (i c d : ℕ) (rest : Exec S A) (r : Result A) (s : S)
      → get_elem? default_delays i ≡ some d
      → Costs clock c rest
      → clock (handle sleep default_max_retries default_delays i rest r s).1 ≤ clock s + (d + c)
  unfolding handle
  handled i c d rest (ok a) s e h = omega arith
  handled i c d rest (err x) s e h = ground (arith, h (sleep d s), slept d s)

  attempt-Costs :
      (left i c d : ℕ)
      → get_elem? default_delays i ≡ some d
      → Costs clock c (attempts left (suc i))
      → Costs clock (b + (d + c)) (attempts (suc left) i)
  unfolding rounds
  attempt-Costs left i c d e h s =
      omega (arith, cost s, handled i c d (attempts left (suc i)) (func s).0 (func s).1 e h)

  handled_last :
      (rest : Exec S A) (r : Result A) (s : S)
      → clock (handle sleep default_max_retries default_delays 3 rest r s).1 ≤ clock s
  unfolding handle
  handled_last rest (ok a) s = omega arith
  handled_last rest (err x) s = ground arith

  last-Costs : Costs clock b (attempts 1 3)
  unfolding rounds
  last-Costs s = omega (arith, cost s, handled_last (attempts 0 4) (func s).0 (func s).1)

  -- A call decorated with the defaults makes at most four attempts, and sleeps 14 seconds at most.
  pub with_retry-Costs : Costs clock (4 * b + 14) (with_retry sleep func)
  unfolding with_retry exponential_backoff_retry get_elem?
  with_retry-Costs s = omega (
    arith,
    attempt-Costs 3 0 (b + (4 + (b + (8 + b)))) 2 refl
        (attempt-Costs 2 1 (b + (8 + b)) 4 refl (attempt-Costs 1 2 b 8 refl last-Costs)) s,
  )
