-- ===== src/Prelude/Sets.antt =====
-- `BTreeSet`: an ascending list without repetition.
use mathlib.Core.Path.{◌≡◌, refl}
use mathlib.Core.Logic.{◌↔◌, ◌⊎◌}
use mathlib.Core.Bool.{Bool, true, false, ◌||◌}
use mathlib.Core.List.{List, [], ◌∷◌, ◌++◌}
use native.Mathlib.Omega.{arith}
use Prim.Native.Nat.{Ordering}
use ahl_core.Prelude.Order.{Ord}

abbrev pub is_eq : Ordering → Bool
is_eq Ordering.eq = true
is_eq Ordering.lt = false
is_eq Ordering.gt = false

module _ {ℓ} {A : Type ℓ} ⦃o : Ord A⦄ where
  unfoldable pub contains : List A → A → Bool
  contains [] a = false
  contains (x ∷ xs) a = elim (o.cmp a x) [ Ordering.eq ↦ true | _ ↦ contains xs a ]

  unfoldable pub insert : A → List A → List A
  insert a [] = a ∷ []
  insert a (x ∷ xs) =
      let rest = x ∷ insert a xs in
      elim (o.cmp a x) [ Ordering.lt ↦ a ∷ x ∷ xs | Ordering.eq ↦ x ∷ xs | Ordering.gt ↦ rest ]

  abbrev pub same : A → A → Bool
  same a b = is_eq (o.cmp a b)

  pub same→eq : (a b : A) → same a b ≡ true → a ≡ b
  same→eq a b h = ground (arith, o.eq_of_cmp a b)

  pub same_refl : (a : A) → same a a ≡ true
  same_refl a = rw (o.cmp_refl a) refl

  pub contains-cons :
      (x : A) (xs : List A) (a : A) → contains (x ∷ xs) a ≡ (same a x || contains xs a)
  unfolding contains
  contains-cons x xs a = ground arith

  pub contains-nil : (a : A) → contains [] a ≡ false
  unfolding contains
  contains-nil a = refl

  pub contains-single : (x a : A) → contains (x ∷ []) a ≡ same a x
  unfolding contains
  contains-single x a = ground arith

  pub contains-append :
      (xs ys : List A) (a : A) → contains (xs ++ ys) a ≡ (contains xs a || contains ys a)
  unfolding contains
  contains-append [] ys a = refl
  contains-append (x ∷ xs) ys a = ground (arith, contains-append xs ys a)

  pub contains-insert_eq :
      (a : A) (s : List A) (b : A) → contains (insert a s) b ≡ (same b a || contains s b)
  unfolding contains insert
  contains-insert_eq a [] b = ground arith
  contains-insert_eq a (x ∷ xs) b = ground (arith, o.eq_of_cmp a x, contains-insert_eq a xs b)

  -- What `insert` adds, and nothing else.
  pub contains-insert :
      (a b : A) (s : List A) → (contains (insert a s) b ≡ true) ↔ ((b ≡ a) ⊎ (contains s b ≡ true))
  unfolding contains insert
  contains-insert a b [] = ground (arith, o.eq_of_cmp b a, o.cmp_refl b)
  contains-insert a b (x ∷ xs) = ground (
    arith,
    o.eq_of_cmp b a,
    o.cmp_refl b,
    o.eq_of_cmp a x,
    o.eq_of_cmp b x,
    o.cmp_swap a b,
    contains-insert a b xs,
  )
