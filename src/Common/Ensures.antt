-- ===== src/Common/Ensures.antt =====
-- What holds of the result of an action, if it returns one, and of the state behind it.

use mathlib.Core.Path.{◌≡◌, refl, ◌∙◌, subst}
use postal_dnsbl_monitor.Common.Exec.{Exec, Result, ok, err, continue, ◌>>=◌}

-- A result that is returned satisfies `P`.
abbrev pub Ensures : {S A : Type 0} → (A → Type 0) → Result A × S → Type 0
Ensures P (ok a, s) = P a
Ensures P (err e, s) = Unit

pub Ensures-continue :
    {S A B : Type 0} (P : B → Type 0) (r : Result A) (k : A → Exec S B) (s : S)
    → ((a : A) (s : S) → Ensures P (k a s))
    → Ensures P (continue r k s)
Ensures-continue P (ok a) k s h = h a s
Ensures-continue P (err e) k s h = tt

-- A step whose result satisfies `Q`, and a rest that may use it.
pub Ensures-bind :
    {S A B : Type 0} (Q : A → Type 0) (P : B → Type 0) (r : Result A) (k : A → Exec S B) (s : S)
    → Ensures Q (r, s)
    → ((a : A) (s : S) → Q a → Ensures P (k a s))
    → Ensures P (continue r k s)
Ensures-bind Q P (ok a) k s q h = h a s q
Ensures-bind Q P (err e) k s q h = tt

-- What holds of the state behind an action that returns.
abbrev pub Leaves : {S A : Type 0} → (S → Type 0) → Result A × S → Type 0
Leaves P (ok a, s) = P s
Leaves P (err e, s) = Unit

pub Leaves-continue :
    {S A B : Type 0} (P : S → Type 0) (r : Result A) (k : A → Exec S B) (s : S)
    → ((a : A) (s : S) → Leaves P (k a s))
    → Leaves P (continue r k s)
Leaves-continue P (ok a) k s h = h a s
Leaves-continue P (err e) k s h = tt

-- The same, for a rest that needs something of the result before it.
pub Leaves-Ensures :
    {S A B : Type 0} (Q : A → Type 0) (P : S → Type 0) (r : Result A) (k : A → Exec S B) (s : S)
    → Ensures Q (r, s)
    → ((a : A) (s : S) → Q a → Leaves P (k a s))
    → Leaves P (continue r k s)
Leaves-Ensures Q P (ok a) k s q h = h a s q
Leaves-Ensures Q P (err e) k s q h = tt

pub Ensures-ok :
    {S A : Type 0} (P : A → Type 0) (o : Result A × S) {a : A} → o.0 ≡ ok a → Ensures P o → P a
Ensures-ok P (r, s) e h = subst (λ x. Ensures P (x, s)) e h

-- The action returned, and left a state with `P`.
abbrev pub Succeeds : {S A : Type 0} → (S → Type 0) → Result A × S → Type 0
Succeeds P (ok a, s) = P s
Succeeds P (err e, s) = ⊥

-- An action that returns from any state with `P`, and leaves one with `Q`.
abbrev pub Leads : {S A : Type 0} → (S → Type 0) → (S → Type 0) → Exec S A → Type 0
Leads {S} P Q m = (s : S) → P s → Succeeds Q (m s)

pub Succeeds-continue :
    {S A B : Type 0} (P Q : S → Type 0) (r : Result A) (k : A → Exec S B) (s : S)
    → Succeeds P (r, s)
    → ((a : A) → Leads P Q (k a))
    → Succeeds Q (continue r k s)
Succeeds-continue P Q (ok a) k s h g = g a s h
Succeeds-continue P Q (err e) k s h g = absurd h

pub Leads-bind :
    {S A B : Type 0} (P Q R : S → Type 0) (m : Exec S A) (k : A → Exec S B)
    → Leads P Q m
    → ((a : A) → Leads Q R (k a))
    → Leads P R (m >>= k)
Leads-bind P Q R m k h g s p = Succeeds-continue Q R (m s).0 k (m s).1 (h s p) g

-- An action that leaves a part of the state alone, whether it returns or raises.
abbrev pub Keeps : {S X A : Type 0} → (S → X) → Exec S A → Type 0
Keeps {S} part m = (s : S) → part (m s).1 ≡ part s

-- A step that leaves the part alone may be followed by any such rest.
pub Keeps-continue :
    {S X A B : Type 0} (part : S → X) (r : Result A) (k : A → Exec S B) (s : S)
    → ((a : A) → Keeps part (k a))
    → part (continue r k s).1 ≡ part s
Keeps-continue part (ok a) k s h = h a s
Keeps-continue part (err e) k s h = refl

pub Keeps-bind :
    {S X A B : Type 0} (part : S → X) (m : Exec S A) (k : A → Exec S B)
    → Keeps part m
    → ((a : A) → Keeps part (k a))
    → Keeps part (m >>= k)
Keeps-bind part m k h kk s = Keeps-continue part (m s).0 k (m s).1 kk ∙ h s
