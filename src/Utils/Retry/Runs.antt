-- ===== src/Utils/Retry/Runs.antt =====
-- What a decorated call does: some transient failures, each with its delay, and one last attempt.
use native.Mathlib.Numerals.{add-one}
use postal_dnsbl_monitor.Common.{
  ℕ, zero, suc, ◌+◌, ◌≤◌, ◌<◌, ◌≡◌, refl, ◌∙◌, ◌⊎◌, inl, inr, Bool, true, false, Option, none, some,
  List, [], ◌∷◌, arith, length, Bool-cases,
}
use postal_dnsbl_monitor.Common.Exec.{Exec, Result, ok, err}
use postal_dnsbl_monitor.Utils.Retry.{
  is_transient, get_elem?, handle, rounds, exponential_backoff_retry,
}

-- the result is a transient Jira error
abbrev pub failed : {A : Type 0} → Result A → Bool
failed (ok a) = false
failed (err e) = is_transient e

abbrev delay_or_zero : Option ℕ → ℕ
delay_or_zero none = 0
delay_or_zero (some d) = d

get_elem?-some : (ds : List ℕ) (i : ℕ) → i < length ds → (d : ℕ) × (get_elem? ds i ≡ some d)
unfolding get_elem?
get_elem?-some [] i h = absurd (omega arith)
get_elem?-some (d ∷ ds) zero h = (d, refl)
get_elem?-some (d ∷ ds) (suc i) h = get_elem?-some ds i (omega arith)

module _ {S A : Type 0} (sleep : ℕ → S → S) (max_retries : ℕ) (delays : List ℕ) where
  round_last :
      (i : ℕ) (rest : Exec S A) (r : Result A) (s : S)
      → (failed r ≡ false) ⊎ (i ≡ max_retries)
      → handle sleep max_retries delays i rest r s ≡ (r, s)
  unfolding handle
  round_last i rest (ok a) s h = refl
  round_last i rest (err e) s h = ground arith

  round_again :
      (i : ℕ) (rest : Exec S A) (r : Result A) (s : S)
      → failed r ≡ true
      → i < max_retries
      → max_retries ≤ length delays
      → handle sleep max_retries delays i rest r s
        ≡ rest (sleep (delay_or_zero (get_elem? delays i)) s)
  unfolding handle
  round_again i rest (ok a) s h lt le = cc
  round_again i rest (err e) s h lt le =
      let (d, found) = get_elem?-some delays i (omega arith) in ground (arith, found)

module _ {S A : Type 0} (sleep : ℕ → S → S) (max_retries : ℕ) (delays : List ℕ)
    (func : Exec S A) where
  -- The state after `k` failed attempts, the first of them number `i`: after each the delay of its
  -- number has been slept.
  abbrev pub after : ℕ → ℕ → S → S
  after i zero s = s
  after i (suc k) s = after (suc i) k (sleep (delay_or_zero (get_elem? delays i)) (func s).1)

  -- The first `k` attempts fail with a transient error.
  abbrev pub Fails : ℕ → ℕ → S → Type 0
  Fails i zero s = Unit
  Fails i (suc k) s =
      (failed (func s).0 ≡ true)
      × Fails (suc i) k (sleep (delay_or_zero (get_elem? delays i)) (func s).1)

  -- After `k` failures the last attempt gives the result: it does not fail, or no retry is left.
  abbrev pub Ends : ℕ → ℕ → S → Result A × S → Type 0
  Ends i k s out =
      (out ≡ func (after i k s)) × ((failed (func (after i k s)).0 ≡ false) ⊎ (i + k ≡ max_retries))

  rounds-Ends :
      (left i : ℕ) (s : S)
      → suc left + i ≡ max_retries + 1
      → max_retries ≤ length delays
      → (k : ℕ) × (i + k ≤ max_retries)
        × Fails i k s
        × Ends i k s (rounds sleep max_retries delays func (suc left) i s)
  unfolding rounds
  rounds-Ends zero i s e le = (
    zero,
    omega arith,
    tt,
    (
      round_last sleep max_retries delays i _ (func s).0 (func s).1 (inr (omega arith)),
      inr (omega arith),
    ),
  )
  rounds-Ends (suc left) i s e le = elim (Bool-cases (failed (func s).0)) [
    | inr last ↦ (
      zero,
      omega arith,
      tt,
      (round_last sleep max_retries delays i _ (func s).0 (func s).1 (inl last), inl last),
    )
    | inl again ↦
        let s' : S = sleep (delay_or_zero (get_elem? delays i)) (func s).1 in
        let (k, bound, fails, ends) = rounds-Ends left (suc i) s' (omega arith) le in
        (
          suc k,
          omega arith,
          (again, fails),
          (
            round_again sleep max_retries delays i _ (func s).0 (func s).1 again (omega arith) le
                ∙ ends.0,
            elim ends.1 [ inl done ↦ inl done | inr used ↦ inr (omega arith) ],
          ),
        )
  ]

  -- A decorated call with a delay for each retry makes some attempts that fail with a transient
  -- error, at most `max_retries` of them, sleeping the delay of each; then one last attempt, whose
  -- result and state are those of the call, and which does not fail unless all retries are used.
  -- It never reaches the exception behind the loop.
  pub retry-Ends :
      (s : S)
      → max_retries ≤ length delays
      → (k : ℕ) × (k ≤ max_retries)
        × Fails 0 k s
        × Ends 0 k s (exponential_backoff_retry sleep max_retries delays func s)
  unfolding exponential_backoff_retry
  retry-Ends s le =
      let (k, bound, fails, ends) = rounds-Ends max_retries 0 s (omega arith) le in
      rw add-one
        (k, omega arith, fails, (ends.0, elim ends.1 [ inl x ↦ inl x | inr y ↦ inr (omega arith) ]))
