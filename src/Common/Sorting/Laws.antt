-- ===== src/Common/Sorting/Laws.antt =====
-- Sorting keeps the texts of a list, orders them, and forgets the order they came in.
use mathlib.Core.Path.{◌≡◌, refl, ap, sym, ◌∙◌}
use mathlib.Core.Bool.{true, not, ◌&&◌, ◌||◌}
use mathlib.Core.Logic.{∥∥₁_elim, ◌↔◌}
use mathlib.Core.List.{List, [], ◌∷◌, Perm, Permᴰ}
use native.Mathlib.Nat.{ℕ_set}
use native.Mathlib.Omega.{arith}
use postal_dnsbl_monitor.Common.Tests.{Bool-eq_of_iff}
use postal_dnsbl_monitor.Common.Lists.{every}
use postal_dnsbl_monitor.Common.Text.{Str, contains, str_eq, str_eq_iff, str_eq_refl, SameTexts}
use postal_dnsbl_monitor.Common.Order.{leb_str, leb_str_total, leb_str_antisymm, leb_str_trans}
use postal_dnsbl_monitor.Common.Sorting.{insert_by, sort_by, sorted, to_set, difference, set_eq}

-- Ascending, by pairs of neighbours.
abbrev pub IsAscending : List Str → Type 0
IsAscending [] = Unit
IsAscending (x ∷ []) = Unit
IsAscending (x ∷ y ∷ ys) = (leb_str x y ≡ true) × IsAscending (y ∷ ys)

abbrev same : Str → Str
same s = s

insert_by-IsAscending :
    (a : Str) (xs : List Str) → IsAscending xs → IsAscending (insert_by same a xs)
unfolding insert_by
insert_by-IsAscending a [] h = tt
insert_by-IsAscending a (x ∷ []) h = ground (arith, leb_str_total a x)
insert_by-IsAscending a (x ∷ y ∷ ys) h =
    ground (arith, leb_str_total a x, insert_by-IsAscending a (y ∷ ys))

pub sorted-IsAscending : (xs : List Str) → IsAscending (sorted xs)
unfolding sorted sort_by
sorted-IsAscending [] = tt
sorted-IsAscending (x ∷ xs) = insert_by-IsAscending x (sorted xs) (sorted-IsAscending xs)

contains-insert_by :
    (a : Str) (xs : List Str) (s : Str)
    → contains (insert_by same a xs) s ≡ (str_eq s a || contains xs s)
unfolding insert_by contains
contains-insert_by a [] s = refl
contains-insert_by a (x ∷ xs) s = ground (arith, contains-insert_by a xs s)

pub contains-sorted : (xs : List Str) → SameTexts (sorted xs) xs
unfolding sorted sort_by contains
contains-sorted [] s = refl
contains-sorted (x ∷ xs) s =
    contains-insert_by x (sorted xs) s ∙ ap (◌||◌ (str_eq s x)) (contains-sorted xs s)

pub contains-to_set : (xs : List Str) → SameTexts (to_set xs) xs
unfolding to_set contains
contains-to_set [] s = refl
contains-to_set (x ∷ xs) s =
    ground (arith, contains-to_set xs s, contains-to_set xs x, str_eq_iff s x)

pub contains-difference :
    (xs ys : List Str) (s : Str)
    → contains (difference xs ys) s ≡ (contains xs s && not (contains ys s))
unfolding difference contains
contains-difference [] ys s = refl
contains-difference (x ∷ xs) ys s = ground (arith, contains-difference xs ys s, str_eq_iff s x)

every-contains :
    (xs ys : List Str) (s : Str)
    → every (contains ys) xs ≡ true
    → contains xs s ≡ true
    → contains ys s ≡ true
unfolding contains
every-contains [] ys s h k = cc
every-contains (x ∷ xs) ys s h k = ground (arith, every-contains xs ys s, str_eq_iff s x)

every-contains_of :
    (xs ys : List Str)
    → ((s : Str) → contains xs s ≡ true → contains ys s ≡ true)
    → every (contains ys) xs ≡ true
unfolding contains
every-contains_of [] ys h = refl
every-contains_of (x ∷ xs) ys h =
    ground (arith, h x, str_eq_refl x, every-contains_of xs ys (λ s k. ground (arith, h s)))

-- Equality of sets is having the same texts.
pub set_eq_iff : (xs ys : List Str) → (set_eq xs ys ≡ true) ↔ SameTexts xs ys
unfolding set_eq
set_eq_iff xs ys = (
  λ h s.
      Bool-eq_of_iff (contains xs s) (contains ys s) (every-contains xs ys s (ground arith))
        (every-contains ys xs s (ground arith)),
  λ h. ground (
    arith,
    every-contains_of xs ys (λ s k. sym (h s) ∙ k),
    every-contains_of ys xs (λ s k. h s ∙ k),
  ),
)

insert_by_comm :
    (a b : Str) (xs : List Str)
    → insert_by same a (insert_by same b xs) ≡ insert_by same b (insert_by same a xs)
unfolding insert_by
insert_by_comm a b [] = ground (arith, leb_str_total a b, leb_str_antisymm a b)
insert_by_comm a b (x ∷ xs) = ground (
  arith,
  insert_by_comm a b xs,
  leb_str_total a b,
  leb_str_antisymm a b,
  leb_str_trans a b x,
  leb_str_trans b a x,
  leb_str_total a x,
  leb_str_total b x,
  leb_str_trans a x b,
  leb_str_trans b x a,
)

sorted-eq_of_permᴰ : {xs ys : List Str} → Permᴰ xs ys → sorted xs ≡ sorted ys
unfolding sorted sort_by
sorted-eq_of_permᴰ Permᴰ.nil = refl
sorted-eq_of_permᴰ (Permᴰ.cons {a = a} {b = b} e p) = rw (e, sorted-eq_of_permᴰ p)
sorted-eq_of_permᴰ (Permᴰ.swap {a = a} {b = b} {l = l} e f) =
    rw (e, f) (insert_by_comm _ _ (sorted l))
sorted-eq_of_permᴰ (Permᴰ.trans p q) = sorted-eq_of_permᴰ p ∙ sorted-eq_of_permᴰ q

texts_set : IsSet (List Str)
texts_set = hlevel ℕ_set

-- Sorting forgets the order of its argument.
pub sorted-eq_of_perm : {xs ys : List Str} → Perm xs ys → sorted xs ≡ sorted ys
sorted-eq_of_perm p = ∥∥₁_elim p (texts_set _ _) sorted-eq_of_permᴰ

sorted-eq_of_IsAscending : (xs : List Str) → IsAscending xs → sorted xs ≡ xs
unfolding sorted sort_by insert_by
sorted-eq_of_IsAscending [] h = refl
sorted-eq_of_IsAscending (x ∷ []) h = refl
sorted-eq_of_IsAscending (x ∷ y ∷ ys) h =
    ap (insert_by same x) (sorted-eq_of_IsAscending (y ∷ ys) h.1) ∙ ground arith

-- Sorting twice is sorting once.
pub sorted-sorted : (xs : List Str) → sorted (sorted xs) ≡ sorted xs
sorted-sorted xs = sorted-eq_of_IsAscending (sorted xs) (sorted-IsAscending xs)
