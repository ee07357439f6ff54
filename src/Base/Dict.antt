-- ===== src/Base/Dict.antt =====
-- Python's `dict` in insertion order. Proofs elsewhere go by the laws.
use mathlib.Core.Bool.{Bool, true}
use mathlib.Core.Path.{◌≡◌, refl}
use mathlib.Core.Option.{Option, none, some}
use mathlib.Core.List.{List, [], ◌∷◌}
use native.Mathlib.Omega.{arith}
use rc_node.Base.Tests.{if◌then◌else◌, is_some}
use rc_node.Base.Equality.{Eq, ◌==◌}

abbrev pub Dict {ℓ κ} : Type ℓ → Type κ → Type (ℓ ⊔ κ)
Dict K V = List (K × V)

abbrev pub keys {ℓ κ} : {K : Type ℓ} {V : Type κ} → Dict K V → List K
keys [] = []
keys ((k, v) ∷ d) = k ∷ keys d

abbrev pub values {ℓ κ} : {K : Type ℓ} {V : Type κ} → Dict K V → List V
values [] = []
values ((k, v) ∷ d) = v ∷ values d

-- `{k: v for k, v in d.items() if p(v)}`
abbrev pub filter_values {ℓ κ} : {K : Type ℓ} {V : Type κ} → (V → Bool) → Dict K V → Dict K V
filter_values p [] = []
filter_values p ((k, v) ∷ d) = let rest = filter_values p d in if p v then (k, v) ∷ rest else rest

module _ {ℓ κ} {K : Type ℓ} {V : Type κ} ⦃e : Eq K⦄ where
  -- `d.get(k)`
  abbrev pub lookup : K → Dict K V → Option V
  lookup k [] = none
  lookup k ((j, w) ∷ d) = if k == j then some w else lookup k d

  -- `k in d`
  abbrev pub has_key : K → Dict K V → Bool
  has_key k d = is_some (lookup k d)

  -- `d[k] = v`
  abbrev pub insert : K → V → Dict K V → Dict K V
  insert k v [] = (k, v) ∷ []
  insert k v ((j, w) ∷ d) = if k == j then (k, v) ∷ d else (j, w) ∷ insert k v d

  -- `d.pop(k, None)`. Every entry of the key goes; a real dict has at most one.
  abbrev pub erase : K → Dict K V → Dict K V
  erase k [] = []
  erase k ((j, w) ∷ d) = let rest = erase k d in if k == j then rest else (j, w) ∷ rest

  -- `d.update(d')`
  abbrev pub update : Dict K V → Dict K V → Dict K V
  update d [] = d
  update d ((k, v) ∷ d') = update (insert k v d) d'

  abbrev pub NodupKeys : Dict K V → Type κ
  NodupKeys [] = Unit
  NodupKeys ((k, _) ∷ d) = (lookup k d ≡ none) × NodupKeys d

  pub lookup-insert :
      (j k : K) (v : V) (d : Dict K V)
      → lookup j (insert k v d) ≡ (if j == k then some v else lookup j d)
  lookup-insert j k v [] = refl
  lookup-insert j k v (_ ∷ d) = ground (arith, lookup-insert j k v d)

  pub lookup-erase :
      (j k : K) (d : Dict K V) → lookup j (erase k d) ≡ (if j == k then none else lookup j d)
  lookup-erase j k [] = ground arith
  lookup-erase j k (_ ∷ d) = ground (arith, lookup-erase j k d)

  pub insert-NodupKeys : (k : K) (v : V) (d : Dict K V) → NodupKeys d → NodupKeys (insert k v d)
  insert-NodupKeys k v [] _ = (refl, tt)
  insert-NodupKeys k v ((j, _) ∷ d) (fresh, u) =
      ground (arith, insert-NodupKeys k v d u, lookup-insert j k v d)

  pub erase-NodupKeys : (k : K) (d : Dict K V) → NodupKeys d → NodupKeys (erase k d)
  erase-NodupKeys k [] _ = tt
  erase-NodupKeys k ((j, _) ∷ d) (fresh, u) =
      ground (arith, erase-NodupKeys k d u, lookup-erase j k d)

  -- An entry that passes the filter is found as before.
  pub lookup-filter_values :
      (p : V → Bool) (k : K) (v : V) (d : Dict K V)
      → lookup k d ≡ some v
      → p v ≡ true
      → lookup k (filter_values p d) ≡ some v
  lookup-filter_values p k v [] h q = h
  lookup-filter_values p k v ((j, w) ∷ d) h q = ground (arith, lookup-filter_values p k v d)

abbrev pub keep_if {ℓ} : {V : Type ℓ} → (V → Bool) → Option V → Option V
keep_if p none = none
keep_if p (some v) = if p v then some v else none

module _ {ℓ κ} {K : Type ℓ} {V : Type κ} ⦃e : Eq K⦄ where
  -- A dict has one entry for a key, so filtering it filters each lookup.
  pub lookup-filter_values-keep_if :
      (p : V → Bool) (k : K) (d : Dict K V)
      → NodupKeys d
      → lookup k (filter_values p d) ≡ keep_if p (lookup k d)
  lookup-filter_values-keep_if p k [] u = refl
  lookup-filter_values-keep_if p k ((j, w) ∷ d) (fresh, u) =
      ground (arith, lookup-filter_values-keep_if p k d u)

  pub filter_values-NodupKeys :
      (p : V → Bool) (d : Dict K V) → NodupKeys d → NodupKeys (filter_values p d)
  filter_values-NodupKeys p [] u = tt
  filter_values-NodupKeys p ((j, w) ∷ d) (fresh, u) =
      ground (arith, filter_values-NodupKeys p d u, lookup-filter_values-keep_if p j d u)
