-- ===== src/Common/Exec.antt =====
-- Methods that change an object and may raise. What was written before a raise stays written, so
-- the state comes back beside the exception too.
use Prim.Native.Nat.{ℕ}
use mathlib.Core.Path.{◌≡◌, refl}
use mathlib.Core.Logic.{◌⊎◌, inl, inr}
use mathlib.Core.Option.{Option}
use postal_dnsbl_monitor.Common.Text.{Str}

-- The exceptions that the program raises, catches or tells apart. `jira_error` carries the status
-- code of a `JIRAError`, which may be missing; `no_resolver` is the NoResolverConfiguration that
-- `dns.resolver.Resolver()` raises, and no query of a resolver; `dns_error` carries the class name of a
-- `DNSException` other than the five before it; `other` is any other `Exception`.
pub data Exn : Type 0 where
  value_error : Str → Exn
  index_error zero_division : Exn
  jira_error : Option ℕ → Exn
  mysql_error : Str → Exn
  dns_timeout nxdomain no_answer no_nameservers no_resolver : Exn
  dns_error : Str → Exn
  other : Str → Exn

pub data Result {ℓ} (A : Type ℓ) : Type ℓ where
  ok : A → Result A
  err : Exn → Result A

abbrev pub Exec {ℓ} : Type ℓ → Type ℓ → Type ℓ
Exec S A = S → Result A × S

module _ {ℓ} {S A : Type ℓ} where
  abbrev pub pure : A → Exec S A
  pure a s = (ok a, s)

  abbrev pub raise : Exn → Exec S A
  raise e s = (err e, s)

  abbrev pub lift : Result A → Exec S A
  lift r s = (r, s)

  abbrev pub gets : (S → A) → Exec S A
  gets f s = (ok (f s), s)

  abbrev pub recover : Result A → (Exn → Exec S A) → Exec S A
  recover (ok a) handler s = (ok a, s)
  recover (err e) handler s = handler e s

  -- `try: m` with `except Exception as e: handler(e)`
  abbrev pub try_except : Exec S A → (Exn → Exec S A) → Exec S A
  try_except m handler s = recover (m s).0 handler (m s).1

module _ {ℓ} {S : Type ℓ} where
  abbrev pub modify : (S → S) → Exec S (Unit {ℓ})
  modify f s = (ok tt, f s)

module _ {ℓ} {S A B : Type ℓ} where
  abbrev pub continue : Result A → (A → Exec S B) → Exec S B
  continue (ok a) f s = f a s
  continue (err e) f s = (err e, s)

  infixl 5 ◌>>=◌ ◌>>◌
  abbrev pub ◌>>=◌ : Exec S A → (A → Exec S B) → Exec S B
  ◌>>=◌ m f s = continue (m s).0 f (m s).1

  abbrev pub ◌>>◌ : Exec S A → Exec S B → Exec S B
  m >> k = m >>= λ _. k

-- An action on a part of a larger state.
abbrev pub zoom {ℓ} : {S T A : Type ℓ} → (T → S) → (S → T → T) → Exec S A → Exec T A
zoom get put m t = let (r, s) = m (get t) in (r, put s t)

pub Result-cases {ℓ} :
    {A : Type ℓ} (r : Result A) → ((a : A) × (r ≡ ok a)) ⊎ ((e : Exn) × (r ≡ err e))
Result-cases (ok a) = inl (a, refl)
Result-cases (err e) = inr (e, refl)

module _ {ℓ} {S A B : Type ℓ} where
  continue-ok :
      (r : Result A) (f : A → Exec S B) (s : S) {a : A} → r ≡ ok a → continue r f s ≡ f a s
  continue-ok (ok b) f s e = cc
  continue-ok (err x) f s e = cc

  continue-err :
      (r : Result A) (f : A → Exec S B) (s : S) {x : Exn} → r ≡ err x → continue r f s ≡ (err x, s)
  continue-err (ok b) f s e = cc
  continue-err (err x) f s e = cc

  -- A step that returns is followed by the rest.
  pub bind-ok :
      (m : Exec S A) (f : A → Exec S B) (s : S) {a : A} → (m s).0 ≡ ok a → (m >>= f) s ≡ f a (m s).1
  bind-ok m f s e = continue-ok (m s).0 f (m s).1 e

  -- A step that raises ends the block.
  pub bind-err :
      (m : Exec S A) (f : A → Exec S B) (s : S) {x : Exn}
      → (m s).0 ≡ err x
      → (m >>= f) s ≡ (err x, (m s).1)
  bind-err m f s e = continue-err (m s).0 f (m s).1 e
