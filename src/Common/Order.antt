-- ===== src/Common/Order.antt =====
-- Python's `<=` on texts: lexicographic, by code points.
use mathlib.Core.Path.{◌≡◌, refl}
use mathlib.Core.Bool.{Bool, true, false}
use mathlib.Core.List.{[], ◌∷◌}
use native.Mathlib.Omega.{arith}
use postal_dnsbl_monitor.Common.Tests.{◌==◌, ltb, if◌then◌else◌}
use postal_dnsbl_monitor.Common.Text.{Str}

unfoldable pub leb_str : Str → Str → Bool
leb_str [] t = true
leb_str (c ∷ s) [] = false
leb_str (c ∷ s) (d ∷ t) = if ltb c d then true else if c == d then leb_str s t else false

pub leb_str_total : (s t : Str) → leb_str s t ≡ false → leb_str t s ≡ true
unfolding leb_str
leb_str_total [] t h = cc
leb_str_total (c ∷ s) [] h = refl
leb_str_total (c ∷ s) (d ∷ t) h = ground (arith, leb_str_total s t)

pub leb_str_refl : (s : Str) → leb_str s s ≡ true
unfolding leb_str
leb_str_refl [] = refl
leb_str_refl (c ∷ s) = ground (arith, leb_str_refl s)

pub leb_str_antisymm : (s t : Str) → leb_str s t ≡ true → leb_str t s ≡ true → s ≡ t
unfolding leb_str
leb_str_antisymm [] [] h k = refl
leb_str_antisymm [] (d ∷ t) h k = cc
leb_str_antisymm (c ∷ s) [] h k = cc
leb_str_antisymm (c ∷ s) (d ∷ t) h k = ground (arith, leb_str_antisymm s t)

pub leb_str_trans : (s t u : Str) → leb_str s t ≡ true → leb_str t u ≡ true → leb_str s u ≡ true
unfolding leb_str
leb_str_trans [] t u h k = refl
leb_str_trans (c ∷ s) [] u h k = cc
leb_str_trans (c ∷ s) (d ∷ t) [] h k = cc
leb_str_trans (c ∷ s) (d ∷ t) (e ∷ u) h k = ground (arith, leb_str_trans s t u)
