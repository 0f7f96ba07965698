-- ===== src/Common/Sorting/Keys.antt =====
-- Sorting by a key that no two items share forgets the order that the items came in.
use mathlib.Core.Path.{◌≡◌, refl, ap, sym, ◌∙◌, subst}
use mathlib.Core.Logic.{∥∥₁_elim, ◌≢◌}
use mathlib.Core.List.{List, [], ◌∷◌, Perm, Permᴰ}
use native.Mathlib.Omega.{arith}
use postal_dnsbl_monitor.Common.Lists.{All}
use postal_dnsbl_monitor.Common.Text.{Str}
use postal_dnsbl_monitor.Common.Order.{leb_str_total, leb_str_antisymm, leb_str_trans}
use postal_dnsbl_monitor.Common.Sorting.{insert_by, sort_by}

module _ {A : Type 0} (key : A → Str) where
  -- No two items have the same key.
  abbrev pub DistinctBy : List A → Type 0
  DistinctBy [] = Unit
  DistinctBy (x ∷ xs) = All (λ y. key x ≢ key y) xs × DistinctBy xs

  insert_by_swap :
      (a b : A) (xs : List A)
      → key a ≢ key b
      → insert_by key a (insert_by key b xs) ≡ insert_by key b (insert_by key a xs)
  unfolding insert_by
  insert_by_swap a b [] ne =
      ground (arith, leb_str_total (key a) (key b), leb_str_antisymm (key a) (key b))
  insert_by_swap a b (x ∷ xs) ne = ground (
    arith,
    insert_by_swap a b xs ne,
    leb_str_total (key a) (key b),
    leb_str_antisymm (key a) (key b),
    leb_str_trans (key a) (key b) (key x),
    leb_str_trans (key b) (key a) (key x),
    leb_str_total (key a) (key x),
    leb_str_total (key b) (key x),
    leb_str_trans (key a) (key x) (key b),
    leb_str_trans (key b) (key x) (key a),
  )

  All-permᴰ : (P : A → Type 0) {xs ys : List A} → Permᴰ xs ys → All P xs → All P ys
  All-permᴰ P Permᴰ.nil h = tt
  All-permᴰ P (Permᴰ.cons e p) h = (subst P e h.0, All-permᴰ P p h.1)
  All-permᴰ P (Permᴰ.swap e f) h = (subst P f h.1.0, (subst P e h.0, h.1.1))
  All-permᴰ P (Permᴰ.trans p q) h = All-permᴰ P q (All-permᴰ P p h)

  DistinctBy-permᴰ : {xs ys : List A} → Permᴰ xs ys → DistinctBy xs → DistinctBy ys
  DistinctBy-permᴰ Permᴰ.nil h = tt
  DistinctBy-permᴰ (Permᴰ.cons {l₂ = l₂} e p) h =
      (subst (λ x. All (λ y. key x ≢ key y) l₂) e (All-permᴰ _ p h.0), DistinctBy-permᴰ p h.1)
  DistinctBy-permᴰ (Permᴰ.swap {l = l} e f) h = (
    (
      (λ q. h.0.0 (ap key e ∙ sym q ∙ sym (ap key f))),
      subst (λ x. All (λ y. key x ≢ key y) l) f h.1.0,
    ),
    (subst (λ x. All (λ y. key x ≢ key y) l) e h.0.1, h.1.1),
  )
  DistinctBy-permᴰ (Permᴰ.trans p q) h = DistinctBy-permᴰ q (DistinctBy-permᴰ p h)

  sort_by-permᴰ : {xs ys : List A} → Permᴰ xs ys → DistinctBy xs → sort_by key xs ≡ sort_by key ys
  unfolding sort_by
  sort_by-permᴰ Permᴰ.nil h = refl
  sort_by-permᴰ (Permᴰ.cons e p) h = rw (e, sort_by-permᴰ p h.1)
  sort_by-permᴰ (Permᴰ.swap {a = a} {b = b} {l = l} e f) h =
      rw (← e, ← f) (insert_by_swap a b (sort_by key l) h.0.0)
  sort_by-permᴰ (Permᴰ.trans p q) h = sort_by-permᴰ p h ∙ sort_by-permᴰ q (DistinctBy-permᴰ p h)

  -- Sorting by the key forgets the order.
  pub sort_by-eq_of_perm :
      {xs ys : List A}
      → IsSet (List A)
      → Perm xs ys
      → DistinctBy xs
      → sort_by key xs ≡ sort_by key ys
  sort_by-eq_of_perm lists p h = ∥∥₁_elim p (lists _ _) (λ d. sort_by-permᴰ d h)
