-- ===== src/Base/Dict.antt =====
-- Python's `dict` in insertion order: an association list over keys with an equality test.
use mathlib.Core.Path.{◌≡◌, refl}
use mathlib.Core.Logic.{◌≢◌}
use mathlib.Core.Bool.{Bool, true, false}
use mathlib.Core.Option.{Option, none, some}
use mathlib.Core.List.{List, [], ◌∷◌}
use native.Mathlib.Omega.{arith}
use xkernel.Base.Tests.{HasTest, ◌==◌, if◌then◌else◌}

abbrev pub Dict {ℓ κ} : Type ℓ → Type κ → Type (ℓ ⊔ κ)
Dict K V = List (K × V)

abbrev pub or_default {ℓ} : {V : Type ℓ} → V → Option V → V
or_default default none = default
or_default default (some v) = v

module _ {ℓ κ} {K : Type ℓ} {V : Type κ} ⦃e : HasTest K⦄ where
  -- `d.get(k)`
  unfoldable pub lookup : K → Dict K V → Option V
  lookup k [] = none
  lookup k ((j, v) ∷ d) = if k == j then some v else lookup k d

  -- `d.get(k, default)`
  unfoldable pub get : K → V → Dict K V → V
  get k default d = or_default default (lookup k d)

  -- `k in d`
  unfoldable pub has : K → Dict K V → Bool
  has k d = elim (lookup k d) [ none ↦ false | some _ ↦ true ]

  -- `d[k] = v`
  unfoldable pub insert : K → V → Dict K V → Dict K V
  insert k v [] = (k, v) ∷ []
  insert k v ((j, w) ∷ d) = if k == j then (j, v) ∷ d else (j, w) ∷ insert k v d

  -- `del d[k]` and `d.pop(k, None)`
  unfoldable pub erase : K → Dict K V → Dict K V
  erase k [] = []
  erase k ((j, w) ∷ d) = if k == j then d else (j, w) ∷ erase k d

  -- No key is listed twice.
  abbrev pub NodupKeys : Dict K V → Type κ
  NodupKeys [] = Unit
  NodupKeys ((j, _) ∷ d) = (lookup j d ≡ none) × NodupKeys d

  pub lookup-insert :
      (k j : K) (v : V) (d : Dict K V)
      → lookup j (insert k v d) ≡ (if j == k then some v else lookup j d)
  unfolding lookup insert
  lookup-insert k j v [] = refl
  lookup-insert k j v ((i, w) ∷ d) =
      ground (arith, e.means k i, e.means j i, e.means j k, lookup-insert k j v d)

  pub lookup-erase_ne : (k j : K) (d : Dict K V) → j ≢ k → lookup j (erase k d) ≡ lookup j d
  unfolding lookup erase
  lookup-erase_ne k j [] h = refl
  lookup-erase_ne k j ((i, w) ∷ d) h =
      ground (arith, e.means k i, e.means j i, lookup-erase_ne k j d h)

  pub lookup-erase : (k : K) (d : Dict K V) → NodupKeys d → lookup k (erase k d) ≡ none
  unfolding lookup erase
  lookup-erase k [] h = refl
  lookup-erase k ((i, w) ∷ d) h = ground (arith, e.means k i, lookup-erase k d h.1)

  pub insert-NodupKeys : (k : K) (v : V) (d : Dict K V) → NodupKeys d → NodupKeys (insert k v d)
  unfolding lookup insert
  insert-NodupKeys k v [] h = (refl, tt)
  insert-NodupKeys k v ((i, w) ∷ d) h =
      ground (arith, e.means k i, e.means i k, insert-NodupKeys k v d h.1, lookup-insert k i v d)

  pub erase-NodupKeys : (k : K) (d : Dict K V) → NodupKeys d → NodupKeys (erase k d)
  unfolding lookup erase
  erase-NodupKeys k [] h = h
  erase-NodupKeys k ((i, w) ∷ d) h =
      ground (arith, e.means k i, erase-NodupKeys k d h.1, lookup-erase_ne k i d)
