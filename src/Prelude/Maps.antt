-- ===== src/Prelude/Maps.antt =====
-- `BTreeMap`: an association list in ascending order of its keys, each of which occurs once.
use Prim.Native.Nat.{Ordering}
use mathlib.Core.Path.{◌≡◌, refl}
use mathlib.Core.Option.{Option, none, some}
use mathlib.Core.List.{List, [], ◌∷◌}
use native.Mathlib.Omega.{arith}
use ahl_core.Prelude.Tests.{if◌then◌else◌}
use ahl_core.Prelude.Order.{Ord}
use ahl_core.Prelude.Sets.{same}

module _ {ℓ κ} {K : Type ℓ} {V : Type κ} ⦃o : Ord K⦄ where
  -- `get`
  unfoldable pub lookup : List (K × V) → K → Option V
  lookup [] k = none
  lookup ((key, v) ∷ rest) k = let later = lookup rest k in if same k key then some v else later

  -- `insert`
  unfoldable pub put : K → V → List (K × V) → List (K × V)
  put k v [] = (k, v) ∷ []
  put k v ((key, w) ∷ rest) =
      let later = (key, w) ∷ put k v rest in
      elim (o.cmp k key) [
        | Ordering.lt ↦ (k, v) ∷ (key, w) ∷ rest
        | Ordering.eq ↦ (k, v) ∷ rest
        | Ordering.gt ↦ later
      ]

  -- `remove`
  unfoldable pub remove : K → List (K × V) → List (K × V)
  remove k [] = []
  remove k ((key, w) ∷ rest) =
      let later = remove k rest in if same k key then later else (key, w) ∷ later

  pub lookup-put :
      (k : K) (v : V) (m : List (K × V)) (x : K)
      → lookup (put k v m) x ≡ (if same x k then some v else lookup m x)
  unfolding lookup put
  lookup-put k v [] x = refl
  lookup-put k v ((key, w) ∷ rest) x = ground (
    arith,
    lookup-put k v rest x,
    o.eq_of_cmp k key,
    o.eq_of_cmp x k,
    o.eq_of_cmp x key,
    o.cmp_refl x,
  )

  pub lookup-remove :
      (k : K) (m : List (K × V)) (x : K)
      → lookup (remove k m) x ≡ (if same x k then none else lookup m x)
  unfolding lookup remove
  lookup-remove k [] x = ground arith
  lookup-remove k ((key, w) ∷ rest) x = ground (
    arith,
    lookup-remove k rest x,
    o.eq_of_cmp k key,
    o.eq_of_cmp x k,
    o.eq_of_cmp x key,
    o.cmp_refl x,
  )
