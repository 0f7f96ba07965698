-- ===== src/Common/Sorting.antt =====
-- Python's `sorted` on texts and on items with a text as their key (a stable insertion sort), and
-- `set`. A set is kept as a list with no repeated text; the order in which Python iterates over it
-- is not fixed, and the program sorts whatever it takes out of a set.
pub mod Laws
pub mod Keys
use Prim.Native.Nat.{ℕ}
use mathlib.Core.Bool.{Bool, true, false, not, ◌&&◌}
use mathlib.Core.List.{List, [], ◌∷◌}
use postal_dnsbl_monitor.Common.Tests.{if◌then◌else◌}
use postal_dnsbl_monitor.Common.Lists.{select, every}
use postal_dnsbl_monitor.Common.Text.{Str, contains}
use postal_dnsbl_monitor.Common.Order.{leb_str}

module _ {ℓ} {A : Type ℓ} (key : A → Str) where
  unfoldable pub insert_by : A → List A → List A
  insert_by a [] = a ∷ []
  insert_by a (b ∷ bs) =
      let rest = insert_by a bs in if leb_str (key a) (key b) then a ∷ b ∷ bs else b ∷ rest

  -- `sorted(xs, key=key)`
  unfoldable pub sort_by : List A → List A
  sort_by [] = []
  sort_by (a ∷ as') = insert_by a (sort_by as')

-- `sorted(xs)`
unfoldable pub sorted : List Str → List Str
sorted = sort_by (λ s. s)

-- `set(xs)`
unfoldable pub to_set : List Str → List Str
to_set [] = []
to_set (x ∷ xs) = let rest = to_set xs in if contains rest x then rest else x ∷ rest

-- `xs - ys`
unfoldable pub difference : List Str → List Str → List Str
difference xs ys = select (λ z. not (contains ys z)) xs

-- `xs == ys`, for sets
unfoldable pub set_eq : List Str → List Str → Bool
set_eq xs ys = every (contains ys) xs && every (contains xs) ys
