-- ===== src/Common/Parse.antt =====
-- Python's `int` of a text. Of the digits of other scripts, which `int` reads too, none is modelled,
-- nor is its limit of 4300 digits.
use Prim.Native.Nat.{ℕ, zero, suc, ◌+◌, ◌*◌, ◌-◌}
use mathlib.Core.Bool.{Bool, true, false, not, ◌&&◌}
use mathlib.Core.Option.{Option, none, some}
use mathlib.Core.List.{[], ◌∷◌, reverse}
use postal_dnsbl_monitor.Common.Tests.{◌==◌, leb, if◌then◌else◌}
use postal_dnsbl_monitor.Common.Text.{Str, codes}
use postal_dnsbl_monitor.Common.Int.{ℤ, pos, negsuc}
use postal_dnsbl_monitor.Common.Split.{is_space}
use postal_dnsbl_monitor.Common.Exec.{Result, ok, err, value_error}

-- The number that the digits after `n` spell, with single underscores between them; `after` tells
-- whether a digit stands before.
unfoldable pub digits_of : ℕ → Bool → Str → Option ℕ
digits_of n true [] = some n
digits_of n false [] = none
digits_of n after (c ∷ s) =
    let next = digits_of (n * 10 + (c - b'0')) true s in
    let skipped = digits_of n false s in
    if leb b'0' c && leb c b'9' then next else if c == b'_' && after then skipped else none

abbrev pub negated : ℕ → ℤ
negated zero = pos 0
negated (suc n) = negsuc n

abbrev pub literal : (ℕ → ℤ) → Option ℕ → Result ℤ
literal sign none = err (value_error (codes "invalid literal for int() with base 10"))
literal sign (some n) = ok (sign n)

unfoldable pub signed : Str → Result ℤ
unfolding digits_of
signed [] = literal pos none
signed (c ∷ s) =
    if c == b'-'
    then literal negated (digits_of 0 false s)
    else if c == b'+'
    then literal pos (digits_of 0 false s)
    else literal pos (digits_of 0 false (c ∷ s))

-- The space that `int` skips is that of `str.isspace` less the separators U+001C to U+001F.
abbrev is_skipped : ℕ → Bool
is_skipped c = is_space c && not (leb 28 c && leb c 31)

unfoldable pub skip_spaces : Str → Str
skip_spaces [] = []
skip_spaces (c ∷ s) = let rest = skip_spaces s in if is_skipped c then rest else c ∷ s

unfoldable pub trimmed : Str → Str
unfolding skip_spaces
trimmed s = reverse (skip_spaces (reverse (skip_spaces s)))

-- `int(s)`; its message leaves out the literal
unfoldable pub int : Str → Result ℤ
unfolding signed trimmed
int s = signed (trimmed s)
