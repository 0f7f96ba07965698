-- ===== src/Services/Database/Zones.antt =====
-- The column blockingLists as a list of zones: what is written is what is read.
use postal_dnsbl_monitor.Common.{
  Str, ◌≡◌, ◌≢◌, refl, ap, ◌∙◌, true, false, List, [], ◌∷◌, All, contains, SameTexts, Bool-cases,
  inl, inr,
}
use postal_dnsbl_monitor.Common.Split.{has, join}
use postal_dnsbl_monitor.Common.Split.Laws.{Lacks, split-join}
use postal_dnsbl_monitor.Common.Order.{leb_str}
use postal_dnsbl_monitor.Common.Sorting.{sorted, sort_by, insert_by}
use postal_dnsbl_monitor.Common.Sorting.Laws.{contains-sorted, sorted-sorted}
use postal_dnsbl_monitor.Models.IpRecord.{zones_of, comma, non_empty}
use postal_dnsbl_monitor.Services.Database.{joined}

-- A zone that is not empty and holds no comma, as the configuration gives them.
abbrev pub Proper : Str → Type 0
Proper z = (z ≢ []) × (has comma z ≡ false)

module _ (P : Str → Type 0) where
  All-insert_by : (a : Str) (xs : List Str) → P a → All P xs → All P (insert_by (λ s. s) a xs)
  unfolding insert_by
  All-insert_by a [] p h = (p, tt)
  All-insert_by a (x ∷ xs) p h = elim (Bool-cases (leb_str a x)) [
    | inl le ↦ rw le (p, h)
    | inr gt ↦ rw gt (h.0, All-insert_by a xs p h.1)
  ]

  All-sorted : (xs : List Str) → All P xs → All P (sorted xs)
  unfolding sorted sort_by
  All-sorted [] h = tt
  All-sorted (x ∷ xs) h = All-insert_by x (sorted xs) h.0 (All-sorted xs h.1)

lacking : (zs : List Str) → All Proper zs → Lacks comma zs
lacking [] h = tt
lacking (z ∷ zs) h = (h.0.1, lacking zs h.1)

join-non_empty :
    (z : Str) (zs : List Str) → Proper z → non_empty (join (comma ∷ []) (z ∷ zs)) ≡ true
unfolding join
join-non_empty [] zs p = absurd (p.0 refl)
join-non_empty (c ∷ z) [] p = refl
join-non_empty (c ∷ z) (y ∷ ys) p = refl

zones_of-join : (zs : List Str) → All Proper zs → zones_of (join (comma ∷ []) zs) ≡ zs
unfolding zones_of
zones_of-join [] h = unfold join in refl
zones_of-join (z ∷ zs) h =
    rw (join-non_empty z zs h.0) (split-join comma (z ∷ zs) (λ e. cc) (lacking (z ∷ zs) h))

-- The zones that are read from the column are those that were joined into it.
pub zones_of-joined : (zs : List Str) → All Proper zs → SameTexts (zones_of (joined zs)) zs
unfolding joined
zones_of-joined zs h s =
    ap (λ (ys : List Str). contains ys s) (zones_of-join (sorted zs) (All-sorted Proper zs h))
    ∙ contains-sorted zs s

pub joined-sorted : (zs : List Str) → joined (sorted zs) ≡ joined zs
unfolding joined
joined-sorted zs = ap (join (comma ∷ [])) (sorted-sorted zs)

pub joined-nil : joined [] ≡ []
unfolding joined join sorted sort_by
joined-nil = refl
