-- ===== src/Common/Show.antt =====
-- Python's `str` of an integer.
use Prim.Native.Nat.{ℕ, zero, suc, ◌+◌, ◌/◌, ◌%◌}
use mathlib.Core.List.{[], ◌∷◌}
use postal_dnsbl_monitor.Common.Tests.{◌==◌, if◌then◌else◌}
use postal_dnsbl_monitor.Common.Text.{Str}
use postal_dnsbl_monitor.Common.Int.{ℤ, pos, negsuc}

-- The digits of `n` before those of `out`; a number has fewer digits than the fuel of `show`.
unfoldable pub digits_before : ℕ → ℕ → Str → Str
digits_before zero n out = out
digits_before (suc fuel) n out =
    let digit = n % 10 + b'0' in
    let rest = digits_before fuel (n / 10) (digit ∷ out) in
    if n / 10 == 0 then digit ∷ out else rest

-- `str(n)`
unfoldable pub show : ℕ → Str
unfolding digits_before
show n = digits_before (n + 1) n []

abbrev pub show_ℤ : ℤ → Str
show_ℤ (pos n) = show n
show_ℤ (negsuc n) = b'-' ∷ show (n + 1)
