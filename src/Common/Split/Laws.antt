-- ===== src/Common/Split/Laws.antt =====
-- Joining and splitting undo one another, and the parts hold no separator.
use Prim.Native.Nat.{ℕ}
use mathlib.Core.Path.{◌≡◌, refl, ap, ◌∙◌}
use mathlib.Core.Logic.{◌≢◌}
use mathlib.Core.Bool.{false, ◌||◌}
use mathlib.Core.List.{List, [], ◌∷◌, ◌++◌, reverse, reverse-append, append_assoc}
use native.Mathlib.Omega.{arith}
use postal_dnsbl_monitor.Common.Tests.{◌==◌, if◌then◌else◌}
use postal_dnsbl_monitor.Common.Lists.{All}
use postal_dnsbl_monitor.Common.Text.{Str}
use postal_dnsbl_monitor.Common.Split.{has, onto_first, split, join, lstrip, strip}

-- No part holds the separator.
abbrev pub Lacks : ℕ → List Str → Type 0
Lacks c = All (λ s. has c s ≡ false)

pub has-append : (c : ℕ) (s t : Str) → has c (s ++ t) ≡ (has c s || has c t)
unfolding has
has-append c [] t = refl
has-append c (x ∷ s) t = ground (arith, has-append c s t)

split-ne-nil : (c : ℕ) (s : Str) → split c s ≢ []
unfolding split onto_first
split-ne-nil c [] = λ e. cc
split-ne-nil c (x ∷ s) = ground (arith, split-ne-nil c s)

-- Joining the parts again gives the text.
pub join-split : (c : ℕ) (s : Str) → join (c ∷ []) (split c s) ≡ s
unfolding split
join-split c [] = unfold join in refl
join-split c (x ∷ s) = join_step (split c s) (split-ne-nil c s) (join-split c s)
  where
    join_step :
        (ps : List Str)
        → ps ≢ []
        → join (c ∷ []) ps ≡ s
        → join (c ∷ []) (if x == c then [] ∷ ps else onto_first x ps) ≡ x ∷ s
    join_step [] ne e = absurd (ne refl)
    join_step (p ∷ []) ne e = unfold join onto_first in ground arith
    join_step (p ∷ q ∷ qs) ne e = unfold join onto_first in ground arith

split_part : (c : ℕ) (p : Str) → has c p ≡ false → split c p ≡ p ∷ []
unfolding split onto_first has
split_part c [] h = refl
split_part c (x ∷ p) h = ground (arith, split_part c p)

split_first :
    (c : ℕ) (p rest : Str) → has c p ≡ false → split c (p ++ (c ∷ rest)) ≡ p ∷ split c rest
unfolding split onto_first has
split_first c [] rest h = ground arith
split_first c (x ∷ p) rest h = ground (arith, split_first c p rest)

-- Splitting a joined list gives back its parts, if there is one and none holds the separator.
pub split-join : (c : ℕ) (ps : List Str) → ps ≢ [] → Lacks c ps → split c (join (c ∷ []) ps) ≡ ps
unfolding join
split-join c [] ne h = absurd (ne refl)
split-join c (p ∷ []) ne h = split_part c p h.0
split-join c (p ∷ q ∷ qs) ne h =
    split_first c p (join (c ∷ []) (q ∷ qs)) h.0 ∙ ap (◌∷◌ p) (split-join c (q ∷ qs) (λ e. cc) h.1)

-- The parts of a split text do not hold the separator.
pub split-Lacks : (c : ℕ) (s : Str) → Lacks c (split c s)
unfolding split onto_first has
split-Lacks c [] = (refl, tt)
split-Lacks c (x ∷ s) = ground (arith, split-Lacks c s)

has-reverse : (c : ℕ) (s : Str) → has c (reverse s) ≡ has c s
unfolding has
has-reverse c [] = refl
has-reverse c (x ∷ s) =
    ap (has c) (reverse-append (x ∷ []) s)
    ∙ has-append c (reverse s) (x ∷ [])
    ∙ ground (arith, has-reverse c s)

has-lstrip : (c : ℕ) (s : Str) → has c s ≡ false → has c (lstrip s) ≡ false
unfolding has lstrip
has-lstrip c [] h = refl
has-lstrip c (x ∷ s) h = ground (arith, has-lstrip c s)

-- Stripping adds no character.
pub has-strip : (c : ℕ) (s : Str) → has c s ≡ false → has c (strip s) ≡ false
unfolding strip
has-strip c s h =
    has-reverse c (lstrip (reverse (lstrip s)))
    ∙ has-lstrip c (reverse (lstrip s)) (has-reverse c (lstrip s) ∙ has-lstrip c s h)

-- What follows a joined list and a separator is split off behind its parts.
pub split-join-append :
    (c : ℕ) (ps : List Str) (rest : Str)
    → ps ≢ []
    → Lacks c ps
    → split c (join (c ∷ []) ps ++ (c ∷ rest)) ≡ ps ++ split c rest
unfolding join
split-join-append c [] rest ne h = absurd (ne refl)
split-join-append c (p ∷ []) rest ne h = split_first c p rest h.0
split-join-append c (p ∷ q ∷ qs) rest ne h =
    ap (split c) (append_assoc p (c ∷ join (c ∷ []) (q ∷ qs)) (c ∷ rest))
    ∙ split_first c p (join (c ∷ []) (q ∷ qs) ++ (c ∷ rest)) h.0
    ∙ ap (◌∷◌ p) (split-join-append c (q ∷ qs) rest (λ e. cc) h.1)
