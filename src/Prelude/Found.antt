-- ===== src/Prelude/Found.antt =====
-- The elements of a list that a test finds, and their places in a prefix.
use mathlib.Core.Path.{◌≡◌, refl}
use mathlib.Core.Logic.{inl, inr}
use mathlib.Core.Bool.{Bool, true}
use mathlib.Core.Option.{some}
use mathlib.Core.List.{List, [], ◌∷◌}
use native.Mathlib.Omega.{arith}
use Prim.Native.Nat.{ℕ, zero, suc, ◌<◌}
use ahl_core.Prelude.Tests.{Bool-cases}
use ahl_core.Prelude.Lists.{any, get_elem?, take}

pub any-witness {ℓ} :
    {A : Type ℓ} (p : A → Bool) (xs : List A)
    → any p xs ≡ true
    → (i : ℕ) × (x : A) × (get_elem? xs i ≡ some x) × (p x ≡ true)
any-witness p [] e = cc
any-witness p (x ∷ xs) e = elim (Bool-cases (p x)) [
  | inl here ↦ (0, x, refl, here)
  | inr later ↦ let (i, y, at, h) = any-witness p xs (ground arith) in (suc i, y, at, h)
]

pub witness-any {ℓ} :
    {A : Type ℓ} (p : A → Bool) (xs : List A) (i : ℕ) (x : A)
    → get_elem? xs i ≡ some x
    → p x ≡ true
    → any p xs ≡ true
witness-any p [] i x at h = cc
witness-any p (y ∷ xs) zero x at h = ground arith
witness-any p (y ∷ xs) (suc i) x at h = rw (witness-any p xs i x at h) (ground arith)

pub get_elem?-take {ℓ} :
    {A : Type ℓ} (n : ℕ) (xs : List A) (i : ℕ) (x : A)
    → get_elem? (take n xs) i ≡ some x
    → (i < n) × (get_elem? xs i ≡ some x)
get_elem?-take zero xs i x at = cc
get_elem?-take (suc n) [] i x at = cc
get_elem?-take (suc n) (y ∷ xs) zero x at = (omega arith, at)
get_elem?-take (suc n) (y ∷ xs) (suc i) x at =
    let (below, there) = get_elem?-take n xs i x at in (omega (arith, below), there)

pub take-get_elem? {ℓ} :
    {A : Type ℓ} (n : ℕ) (xs : List A) (i : ℕ) (x : A)
    → i < n
    → get_elem? xs i ≡ some x
    → get_elem? (take n xs) i ≡ some x
take-get_elem? zero xs i x below at = absurd (omega (arith, below))
take-get_elem? (suc n) [] i x below at = cc
take-get_elem? (suc n) (y ∷ xs) zero x below at = at
take-get_elem? (suc n) (y ∷ xs) (suc i) x below at =
    take-get_elem? n xs i x (omega (arith, below)) at
