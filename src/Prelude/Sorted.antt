-- ===== src/Prelude/Sorted.antt =====
-- What `sort_by` makes of a list, and that it leaves a sorted one alone.
use Prim.Native.Nat.{Ordering}
use mathlib.Core.Path.{◌≡◌, refl, ◌∙◌}
use mathlib.Core.Logic.{inl, inr}
use mathlib.Core.Bool.{Bool, true, false, not, ◌&&◌}
use mathlib.Core.List.{List, [], ◌∷◌}
use native.Mathlib.Omega.{arith}
use ahl_core.Prelude.Tests.{Bool-cases}
use ahl_core.Prelude.Lists.{all, filter, length}
use ahl_core.Prelude.Order.{swap, insert_by, sort_by}

abbrev pub is_gt : Ordering → Bool
is_gt Ordering.gt = true
is_gt Ordering.lt = false
is_gt Ordering.eq = false

module _ {ℓ} {A : Type ℓ} (cmp : A → A → Ordering) where
  -- No element is greater than the next one.
  abbrev pub is_sorted : List A → Bool
  is_sorted [] = true
  is_sorted (x ∷ []) = true
  is_sorted (x ∷ y ∷ rest) = let later = is_sorted (y ∷ rest) in not (is_gt (cmp x y)) && later

  pub all-insert_by :
      (p : A → Bool) (x : A) (xs : List A) → all p (insert_by cmp x xs) ≡ (p x && all p xs)
  unfolding insert_by
  all-insert_by p x [] = refl
  all-insert_by p x (y ∷ ys) = ground (arith, all-insert_by p x ys)

  length-filter-insert_by :
      (p : A → Bool) (x : A) (xs : List A)
      → length (filter p (insert_by cmp x xs)) ≡ length (filter p (x ∷ xs))
  unfolding insert_by
  length-filter-insert_by p x [] = refl
  length-filter-insert_by p x (y ∷ ys) = ground (arith, length-filter-insert_by p x ys)

  -- Sorting keeps each element as often as it was there.
  pub length-filter-sort_by :
      (p : A → Bool) (xs : List A) → length (filter p (sort_by cmp xs)) ≡ length (filter p xs)
  unfolding sort_by
  length-filter-sort_by p [] = refl
  length-filter-sort_by p (x ∷ xs) =
      length-filter-insert_by p x (sort_by cmp xs) ∙ ground (arith, length-filter-sort_by p xs)

  pub all-sort_by : (p : A → Bool) (xs : List A) → all p (sort_by cmp xs) ≡ all p xs
  unfolding sort_by
  all-sort_by p [] = refl
  all-sort_by p (x ∷ xs) = rw (all-insert_by p x (sort_by cmp xs), all-sort_by p xs) refl

  insert_by-gt :
      (x y : A) (ys : List A)
      → is_gt (cmp x y) ≡ true
      → insert_by cmp x (y ∷ ys) ≡ y ∷ insert_by cmp x ys
  unfolding insert_by
  insert_by-gt x y ys g = ground arith

  insert_by-le :
      (x y : A) (ys : List A) → is_gt (cmp x y) ≡ false → insert_by cmp x (y ∷ ys) ≡ x ∷ y ∷ ys
  unfolding insert_by
  insert_by-le x y ys g = ground arith

  sorted_cons :
      (x y : A) (ys : List A)
      → is_gt (cmp x y) ≡ false
      → is_sorted (y ∷ ys) ≡ true
      → is_sorted (x ∷ y ∷ ys) ≡ true
  sorted_cons x y ys g e = rw (g, e) refl

  insert_by-front : (x : A) (xs : List A) → is_sorted (x ∷ xs) ≡ true → insert_by cmp x xs ≡ x ∷ xs
  unfolding insert_by
  insert_by-front x [] e = refl
  insert_by-front x (y ∷ ys) e = ground arith

  tail_sorted : (x : A) (xs : List A) → is_sorted (x ∷ xs) ≡ true → is_sorted xs ≡ true
  tail_sorted x [] e = refl
  tail_sorted x (y ∷ ys) e = ground arith

  head_le : (x y : A) (ys : List A) → is_sorted (x ∷ y ∷ ys) ≡ true → is_gt (cmp x y) ≡ false
  head_le x y ys e = ground arith

  pub sort_by-sorted : (xs : List A) → is_sorted xs ≡ true → sort_by cmp xs ≡ xs
  unfolding sort_by
  sort_by-sorted [] e = refl
  sort_by-sorted (x ∷ xs) e = rw (sort_by-sorted xs (tail_sorted x xs e)) (insert_by-front x xs e)

  module _ (cmp_swap : (a b : A) → cmp b a ≡ swap (cmp a b)) where
    not_gt : (x y : A) → is_gt (cmp x y) ≡ true → is_gt (cmp y x) ≡ false
    not_gt x y e = ground (arith, cmp_swap x y)

    -- An element that is not before `y` is inserted behind it.
    insert_by-behind :
        (x y : A) (ys : List A)
        → is_gt (cmp x y) ≡ true
        → is_sorted (y ∷ ys) ≡ true
        → is_sorted (y ∷ insert_by cmp x ys) ≡ true
    unfolding insert_by
    insert_by-behind x y [] g e = sorted_cons y x [] (not_gt x y g) refl
    insert_by-behind x y (z ∷ zs) g e = elim (Bool-cases (is_gt (cmp x z))) [
      | inl on ↦ rw (insert_by-gt x z zs on) (
          sorted_cons y z (insert_by cmp x zs) (head_le y z zs e)
            (insert_by-behind x z zs on (tail_sorted y (z ∷ zs) e)))
      | inr here ↦ rw (insert_by-le x z zs here) (
          sorted_cons y x (z ∷ zs) (not_gt x y g)
            (sorted_cons x z zs here (tail_sorted y (z ∷ zs) e)))
    ]

    insert_by-sorted :
        (x : A) (xs : List A) → is_sorted xs ≡ true → is_sorted (insert_by cmp x xs) ≡ true
    unfolding insert_by
    insert_by-sorted x [] e = refl
    insert_by-sorted x (y ∷ ys) e = elim (Bool-cases (is_gt (cmp x y))) [
      | inl on ↦ rw (insert_by-gt x y ys on) (insert_by-behind x y ys on e)
      | inr here ↦ rw (insert_by-le x y ys here) (sorted_cons x y ys here e)
    ]

    pub sorted-sort_by : (xs : List A) → is_sorted (sort_by cmp xs) ≡ true
    unfolding sort_by
    sorted-sort_by [] = refl
    sorted-sort_by (x ∷ xs) = insert_by-sorted x (sort_by cmp xs) (sorted-sort_by xs)
