-- ===== src/Prelude/Maps.antt =====
-- Go maps as association lists over a Boolean equality of the keys: the first binding counts.
use mathlib.Core.Path.{◌≡◌, refl}
use mathlib.Core.Logic.{◌↔◌}
use mathlib.Core.Bool.{Bool, true}
use mathlib.Core.Option.{Option, none, some}
use mathlib.Core.List.{List, [], ◌∷◌}
use native.Mathlib.Omega.{arith}
use agentsecrets.Prelude.Tests.{if◌then◌else◌}

module _ {ℓ κ} {K : Type ℓ} {V : Type κ} where
  unfoldable pub lookup_by : (K → K → Bool) → K → List (K × V) → Option V
  lookup_by eq k [] = none
  lookup_by eq k ((j, v) ∷ m) = if eq j k then some v else lookup_by eq k m

  unfoldable pub put_by : (K → K → Bool) → K → V → List (K × V) → List (K × V)
  put_by eq k v [] = (k, v) ∷ []
  put_by eq k v ((j, w) ∷ m) = if eq j k then (k, v) ∷ m else (j, w) ∷ put_by eq k v m

  unfoldable pub remove_by : (K → K → Bool) → K → List (K × V) → List (K × V)
  remove_by eq k [] = []
  remove_by eq k ((j, w) ∷ m) =
      let rest = remove_by eq k m in if eq j k then rest else (j, w) ∷ rest

  module _ (eq : K → K → Bool) (eq_iff : (a b : K) → (eq a b ≡ true) ↔ (a ≡ b)) where
    pub lookup_by-put_by :
        (k j : K) (v : V) (m : List (K × V))
        → lookup_by eq j (put_by eq k v m) ≡ (if eq k j then some v else lookup_by eq j m)
    unfolding lookup_by put_by
    lookup_by-put_by k j v [] = refl
    lookup_by-put_by k j v ((i, w) ∷ m) =
        ground (arith, eq_iff k j, eq_iff i k, eq_iff i j, lookup_by-put_by k j v m)

    pub lookup_by-remove_by :
        (k j : K) (m : List (K × V))
        → lookup_by eq j (remove_by eq k m) ≡ (if eq k j then none else lookup_by eq j m)
    unfolding lookup_by remove_by
    lookup_by-remove_by k j [] = ground arith
    lookup_by-remove_by k j ((i, w) ∷ m) =
        ground (arith, eq_iff k j, eq_iff i k, eq_iff i j, lookup_by-remove_by k j m)
