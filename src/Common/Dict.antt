-- ===== src/Common/Dict.antt =====
-- Python's `dict` with texts for keys: an association list in insertion order.
use mathlib.Core.Path.{◌≡◌, refl}
use mathlib.Core.Bool.{Bool, true, false, ◌||◌}
use mathlib.Core.Option.{Option, none, some}
use mathlib.Core.List.{List, [], ◌∷◌}
use native.Mathlib.Omega.{arith}
use postal_dnsbl_monitor.Common.Tests.{if◌then◌else◌}
use postal_dnsbl_monitor.Common.Text.{Str, str_eq, str_eq_iff, str_eq_comm, contains}

abbrev pub Dict {ℓ} : Type ℓ → Type ℓ
Dict V = List (Str × V)

module _ {ℓ} {V : Type ℓ} where
  -- `d.get(k)`
  unfoldable pub lookup : Str → Dict V → Option V
  lookup k [] = none
  lookup k ((j, v) ∷ d) = if str_eq k j then some v else lookup k d

  -- `d[k] = v`: an old key keeps its place, a new one goes to the end
  unfoldable pub insert : Str → V → Dict V → Dict V
  insert k v [] = (k, v) ∷ []
  insert k v ((j, w) ∷ d) = if str_eq k j then (j, v) ∷ d else (j, w) ∷ insert k v d

  unfoldable pub keys : Dict V → List Str
  keys [] = []
  keys ((j, v) ∷ d) = j ∷ keys d

  unfoldable pub values : Dict V → List V
  values [] = []
  values ((j, v) ∷ d) = v ∷ values d

  -- `k in d`
  unfoldable pub has_key : Str → Dict V → Bool
  has_key k d = elim (lookup k d) [ none ↦ false | some _ ↦ true ]

  -- No key stands twice.
  abbrev pub DistinctKeys : Dict V → Type 0
  DistinctKeys [] = Unit
  DistinctKeys ((j, v) ∷ d) = (contains (keys d) j ≡ false) × DistinctKeys d

  pub lookup-insert :
      (k j : Str) (v : V) (d : Dict V)
      → lookup j (insert k v d) ≡ (if str_eq k j then some v else lookup j d)
  unfolding lookup insert
  lookup-insert k j v [] = ground (arith, str_eq_comm k j)
  lookup-insert k j v ((i, w) ∷ d) =
      ground (arith, lookup-insert k j v d, str_eq_iff k i, str_eq_iff j i, str_eq_iff k j)

  pub contains-keys : (k : Str) (d : Dict V) → contains (keys d) k ≡ has_key k d
  unfolding contains keys has_key lookup
  contains-keys k [] = refl
  contains-keys k ((j, v) ∷ d) = ground (arith, contains-keys k d)

  pub has_key-insert :
      (k j : Str) (v : V) (d : Dict V) → has_key j (insert k v d) ≡ (str_eq k j || has_key j d)
  unfolding has_key
  has_key-insert k j v d = ground (arith, lookup-insert k j v d)

  pub has_key_of_lookup : (k : Str) {v : V} (d : Dict V) → lookup k d ≡ some v → has_key k d ≡ true
  unfolding has_key
  has_key_of_lookup k d h = ground arith

  -- Writing a key that is there keeps the keys and their order.
  pub keys-insert :
      (k : Str) (v : V) (d : Dict V) → has_key k d ≡ true → keys (insert k v d) ≡ keys d
  unfolding keys insert has_key lookup
  keys-insert k v [] h = cc
  keys-insert k v ((j, w) ∷ d) h = ground (arith, keys-insert k v d)

  pub contains-keys-insert :
      (k j : Str) (v : V) (d : Dict V)
      → contains (keys (insert k v d)) j ≡ (str_eq j k || contains (keys d) j)
  unfolding contains keys insert
  contains-keys-insert k j v [] = refl
  contains-keys-insert k j v ((i, w) ∷ d) =
      ground (arith, contains-keys-insert k j v d, str_eq_iff k i)

  pub insert-DistinctKeys :
      (k : Str) (v : V) (d : Dict V) → DistinctKeys d → DistinctKeys (insert k v d)
  unfolding insert keys contains
  insert-DistinctKeys k v [] h = (refl, tt)
  insert-DistinctKeys k v ((i, w) ∷ d) h =
      ground (arith, insert-DistinctKeys k v d h.1, contains-keys-insert k i v d, str_eq_comm k i)
