-- ===== src/Common/Maps.antt =====
-- `BTreeMap` and `HashMap` as association lists; the order of the entries is that of an iteration.
use mathlib.Core.Path.{◌≡◌, refl, ap, sym}
use mathlib.Core.Option.{Option, none, some}
use mathlib.Core.List.{List, [], ◌∷◌, map}
use mathlib.Core.Logic.{inl, inr}
use native.Mathlib.Omega.{arith}
use locoloco.Common.Tests.{if◌then◌else◌, Bool-cases}
use locoloco.Common.Equality.{Eq, ◌==◌}

module _ {ℓ κ} {K : Type ℓ} {V : Type κ} ⦃e : Eq K⦄ where
  -- `map.get(&k)`
  unfoldable pub get : List (K × V) → K → Option V
  get [] k = none
  get ((j, v) ∷ m) k = if j == k then some v else get m k

  -- `map.insert(k, v)`
  unfoldable pub insert : K → V → List (K × V) → List (K × V)
  insert k v [] = (k, v) ∷ []
  insert k v ((j, w) ∷ m) = if j == k then (k, v) ∷ m else (j, w) ∷ insert k v m

  pub get-insert :
      (k j : K) (v : V) (m : List (K × V))
      → get (insert k v m) j ≡ (if k == j then some v else get m j)
  unfolding get insert
  get-insert k j v [] = refl
  get-insert k j v ((i, w) ∷ m) =
      ground (arith, e.beq_iff k j, e.beq_iff i k, e.beq_iff i j, get-insert k j v m)

  -- the keys stay as they are where the key is there
  pub keys-insert :
      (k : K) (v w : V) (m : List (K × V))
      → get m k ≡ some w
      → map (λ (entry : K × V). entry.0) (insert k v m) ≡ map (λ (entry : K × V). entry.0) m
  unfolding get insert
  keys-insert k v w [] h = cc
  keys-insert k v w ((j, u) ∷ m) h = elim (Bool-cases (e.beq j k)) [
    | inl same ↦
        rw same (ap (λ i. i ∷ map (λ (entry : K × V). entry.0) m) (sym ((e.beq_iff j k).0 same)))
    | inr differ ↦ rw differ (ap (◌∷◌ j) (keys-insert k v w m (ground arith)))
  ]
