-- ===== src/Common/Text.antt =====
-- Python's `str` as its list of code points, with `==` and `in`.
use Prim.Native.Nat.{ℕ}
use Prim.Native.Char.{code}
use Prim.Native.String.{String}
use mathlib.Core.Path.{◌≡◌, refl}
use mathlib.Core.Logic.{◌↔◌}
use mathlib.Core.Bool.{Bool, true, false, ◌&&◌, ◌||◌}
use mathlib.Core.List.{List, [], ◌∷◌, ◌++◌}
use native.Mathlib.Omega.{arith}
use postal_dnsbl_monitor.Common.Tests.{◌==◌, Bool-eq_of_iff}

abbrev pub Str : Type 0
Str = List ℕ

-- The code points of a literal.
abbrev pub codes : String → Str
codes String.[] = []
codes (String.◌∷◌ c s) = code c ∷ codes s

-- `s == t`
unfoldable pub str_eq : Str → Str → Bool
str_eq [] [] = true
str_eq (c ∷ s) (d ∷ t) = c == d && str_eq s t
str_eq _ _ = false

str_eq→eq : (s t : Str) → str_eq s t ≡ true → s ≡ t
unfolding str_eq
str_eq→eq [] [] h = refl
str_eq→eq (c ∷ s) (d ∷ t) h = ground (arith, str_eq→eq s t)
str_eq→eq [] (d ∷ t) h = cc
str_eq→eq (c ∷ s) [] h = cc

pub str_eq_refl : (s : Str) → str_eq s s ≡ true
unfolding str_eq
str_eq_refl [] = refl
str_eq_refl (c ∷ s) = ground (arith, str_eq_refl s)

pub str_eq_iff : (s t : Str) → (str_eq s t ≡ true) ↔ (s ≡ t)
str_eq_iff s t = (str_eq→eq s t, λ p. rw p (str_eq_refl t))

pub str_eq_comm : (s t : Str) → str_eq s t ≡ str_eq t s
str_eq_comm s t =
    Bool-eq_of_iff (str_eq s t) (str_eq t s) (λ h. ground (arith, str_eq_iff s t, str_eq_iff t s))
      (λ h. ground (arith, str_eq_iff s t, str_eq_iff t s))

-- `s in xs`, for a list or a set of texts
unfoldable pub contains : List Str → Str → Bool
contains [] s = false
contains (x ∷ xs) s = str_eq s x || contains xs s

pub contains-append :
    (xs ys : List Str) (s : Str) → contains (xs ++ ys) s ≡ (contains xs s || contains ys s)
unfolding contains
contains-append [] ys s = refl
contains-append (x ∷ xs) ys s = ground (arith, contains-append xs ys s)

-- Two lists hold the same texts.
abbrev pub SameTexts : List Str → List Str → Type 0
SameTexts xs ys = (s : Str) → contains xs s ≡ contains ys s
