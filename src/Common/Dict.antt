-- ===== src/Common/Dict.antt =====
-- A Go map as an association list, with the laws that the clients use.
use mathlib.Core.Path.{◌≡◌, refl}
use mathlib.Core.Option.{Option, none, some}
use mathlib.Core.List.{List, [], ◌∷◌, map}
use native.Mathlib.Omega.{arith}
use rootenv.Common.Tests.{if◌then◌else◌}
use rootenv.Common.Equality.{Comparable, ◌==◌}

abbrev pub Dict {ℓ κ} : Type ℓ → Type κ → Type (ℓ ⊔ κ)
Dict K V = List (K × V)

abbrev pub keys {ℓ κ} : {K : Type ℓ} {V : Type κ} → Dict K V → List K
keys = map (λ (k, _). k)

abbrev pub values {ℓ κ} : {K : Type ℓ} {V : Type κ} → Dict K V → List V
values = map (λ (_, v). v)

module _ {ℓ κ} {K : Type ℓ} {V : Type κ} ⦃e : Comparable K⦄ where
  -- `v, ok := d[k]`
  unfoldable pub lookup : K → Dict K V → Option V
  lookup k [] = none
  lookup k ((j, v) ∷ d) = if j == k then some v else lookup k d

  -- `d[k] = v`
  unfoldable pub insert : K → V → Dict K V → Dict K V
  insert k v [] = (k, v) ∷ []
  insert k v ((j, w) ∷ d) = if j == k then (k, v) ∷ d else (j, w) ∷ insert k v d

  -- `delete(d, k)`. Every entry of the key goes; a Go map has at most one.
  unfoldable pub erase : K → Dict K V → Dict K V
  erase k [] = []
  erase k ((j, w) ∷ d) = let rest = erase k d in if j == k then rest else (j, w) ∷ rest

  -- `d[k]`, with the zero value where the key is missing
  unfoldable pub get_or : K → V → Dict K V → V
  get_or k z [] = z
  get_or k z ((j, v) ∷ d) = if j == k then v else get_or k z d

  pub lookup-insert :
      (j k : K) (v : V) (d : Dict K V)
      → lookup j (insert k v d) ≡ (if k == j then some v else lookup j d)
  unfolding lookup insert
  lookup-insert j k v [] = refl
  lookup-insert j k v ((i, w) ∷ d) =
      ground (arith, e.equal_iff k j, e.equal_iff i k, e.equal_iff i j, lookup-insert j k v d)

  pub lookup-erase :
      (j k : K) (d : Dict K V) → lookup j (erase k d) ≡ (if k == j then none else lookup j d)
  unfolding lookup erase
  lookup-erase j k [] = ground arith
  lookup-erase j k ((i, w) ∷ d) =
      ground (arith, e.equal_iff k j, e.equal_iff i k, e.equal_iff i j, lookup-erase j k d)

  pub get_or-insert :
      (j k : K) (z v : V) (d : Dict K V)
      → get_or j z (insert k v d) ≡ (if k == j then v else get_or j z d)
  unfolding get_or insert
  get_or-insert j k z v [] = refl
  get_or-insert j k z v ((i, w) ∷ d) =
      ground (arith, e.equal_iff k j, e.equal_iff i k, e.equal_iff i j, get_or-insert j k z v d)

  pub get_or-erase :
      (j k : K) (z : V) (d : Dict K V)
      → get_or j z (erase k d) ≡ (if k == j then z else get_or j z d)
  unfolding get_or erase
  get_or-erase j k z [] = ground arith
  get_or-erase j k z ((i, w) ∷ d) =
      ground (arith, e.equal_iff k j, e.equal_iff i k, e.equal_iff i j, get_or-erase j k z d)

  pub get_or-lookup :
      (k : K) (z : V) (d : Dict K V) → get_or k z d ≡ elim (lookup k d) [ none ↦ z | some v ↦ v ]
  unfolding get_or lookup
  get_or-lookup k z [] = refl
  get_or-lookup k z ((i, w) ∷ d) = ground (arith, get_or-lookup k z d)
