-- ===== src/Prelude/Order.antt =====
-- Three-way comparison, as `Ord::cmp`: of numbers, of texts by their bytes, of lists and of pairs;
-- and the stable sort `slice::sort_by`.
use Prim.Native.Nat.{ℕ, compare, Ordering}
use mathlib.Core.Path.{◌≡◌, refl}
use mathlib.Core.List.{List, [], ◌∷◌}
use native.Mathlib.Omega.{arith}

abbrev pub swap : Ordering → Ordering
swap Ordering.lt = Ordering.gt
swap Ordering.eq = Ordering.eq
swap Ordering.gt = Ordering.lt

-- `Ordering::then`
abbrev pub then_with : Ordering → Ordering → Ordering
then_with Ordering.eq o = o
then_with Ordering.lt o = Ordering.lt
then_with Ordering.gt o = Ordering.gt

pub record Ord {ℓ} (A : Type ℓ) : Type ℓ where
  pub cmp : A → A → Ordering
  pub cmp_refl : (a : A) → cmp a a ≡ Ordering.eq
  pub eq_of_cmp : (a b : A) → cmp a b ≡ Ordering.eq → a ≡ b
  pub cmp_swap : (a b : A) → cmp b a ≡ swap (cmp a b)
  pub cmp_trans :
      (a b c : A) → cmp a b ≡ Ordering.lt → cmp b c ≡ Ordering.lt → cmp a c ≡ Ordering.lt

pub nat_refl : (a : ℕ) → compare a a ≡ Ordering.eq
nat_refl a = ground arith

pub nat_eq : (a b : ℕ) → compare a b ≡ Ordering.eq → a ≡ b
nat_eq a b h = ground arith

pub nat_swap : (a b : ℕ) → compare b a ≡ swap (compare a b)
nat_swap a b = ground arith

pub nat_trans :
    (a b c : ℕ) → compare a b ≡ Ordering.lt → compare b c ≡ Ordering.lt → compare a c ≡ Ordering.lt
nat_trans a b c p q = ground arith

instance abbrev pub nat_ord : Ord ℕ
nat_ord = record {
  cmp = compare;
  cmp_refl = nat_refl;
  eq_of_cmp = nat_eq;
  cmp_swap = nat_swap;
  cmp_trans = nat_trans;
}

module _ {ℓ} {A : Type ℓ} ⦃o : Ord A⦄ where
  unfoldable pub cmp_list : List A → List A → Ordering
  cmp_list [] [] = Ordering.eq
  cmp_list [] (b ∷ bs) = Ordering.lt
  cmp_list (a ∷ as') [] = Ordering.gt
  cmp_list (a ∷ as') (b ∷ bs) = then_with (o.cmp a b) (cmp_list as' bs)

  pub list_refl : (a : List A) → cmp_list a a ≡ Ordering.eq
  unfolding cmp_list
  list_refl [] = refl
  list_refl (a ∷ as') = rw (o.cmp_refl a) (list_refl as')

  pub list_eq : (a b : List A) → cmp_list a b ≡ Ordering.eq → a ≡ b
  unfolding cmp_list
  list_eq [] [] h = refl
  list_eq [] (b ∷ bs) h = cc
  list_eq (a ∷ as') [] h = cc
  list_eq (a ∷ as') (b ∷ bs) h = ground (arith, o.eq_of_cmp a b, list_eq as' bs)

  pub list_swap : (a b : List A) → cmp_list b a ≡ swap (cmp_list a b)
  unfolding cmp_list
  list_swap [] [] = refl
  list_swap [] (b ∷ bs) = refl
  list_swap (a ∷ as') [] = refl
  list_swap (a ∷ as') (b ∷ bs) = ground (arith, o.cmp_swap a b, list_swap as' bs)

  pub list_trans :
      (a b c : List A)
      → cmp_list a b ≡ Ordering.lt
      → cmp_list b c ≡ Ordering.lt
      → cmp_list a c ≡ Ordering.lt
  unfolding cmp_list
  list_trans [] [] c p q = cc
  list_trans [] (b ∷ bs) [] p q = cc
  list_trans [] (b ∷ bs) (c ∷ cs) p q = refl
  list_trans (a ∷ as') [] c p q = cc
  list_trans (a ∷ as') (b ∷ bs) [] p q = cc
  list_trans (a ∷ as') (b ∷ bs) (c ∷ cs) p q = ground (
    arith,
    o.cmp_trans a b c,
    o.eq_of_cmp a b,
    o.eq_of_cmp b c,
    o.cmp_refl a,
    o.cmp_refl b,
    list_trans as' bs cs,
  )

  instance abbrev pub list_ord : Ord (List A)
  list_ord = record {
    cmp = cmp_list;
    cmp_refl = list_refl;
    eq_of_cmp = list_eq;
    cmp_swap = list_swap;
    cmp_trans = list_trans;
  }

module _ {ℓ κ} {A : Type ℓ} {B : Type κ} ⦃oa : Ord A⦄ ⦃ob : Ord B⦄ where
  abbrev pub cmp_pair : A × B → A × B → Ordering
  cmp_pair p q = then_with (oa.cmp p.0 q.0) (ob.cmp p.1 q.1)

  pub pair_refl : (p : A × B) → cmp_pair p p ≡ Ordering.eq
  pair_refl p = rw (oa.cmp_refl p.0) (ob.cmp_refl p.1)

  pub pair_eq : (p q : A × B) → cmp_pair p q ≡ Ordering.eq → p ≡ q
  pair_eq (a, b) (c, d) h = ground (arith, oa.eq_of_cmp a c, ob.eq_of_cmp b d)

  pub pair_swap : (p q : A × B) → cmp_pair q p ≡ swap (cmp_pair p q)
  pair_swap (a, b) (c, d) = ground (arith, oa.cmp_swap a c, ob.cmp_swap b d)

  pub pair_trans :
      (p q r : A × B)
      → cmp_pair p q ≡ Ordering.lt
      → cmp_pair q r ≡ Ordering.lt
      → cmp_pair p r ≡ Ordering.lt
  pair_trans (a, b) (c, d) (e, f) h k = ground (
    arith,
    oa.cmp_trans a c e,
    oa.eq_of_cmp a c,
    oa.eq_of_cmp c e,
    oa.cmp_refl a,
    oa.cmp_refl c,
    ob.cmp_trans b d f,
  )

  instance abbrev pub pair_ord : Ord (A × B)
  pair_ord = record {
    cmp = cmp_pair;
    cmp_refl = pair_refl;
    eq_of_cmp = pair_eq;
    cmp_swap = pair_swap;
    cmp_trans = pair_trans;
  }

-- `sort_by(compare)`: an element goes before the later ones that are not smaller.
module _ {ℓ} {A : Type ℓ} (cmp : A → A → Ordering) where
  unfoldable pub insert_by : A → List A → List A
  insert_by x [] = x ∷ []
  insert_by x (y ∷ ys) =
      let rest = y ∷ insert_by x ys in elim (cmp x y) [ Ordering.gt ↦ rest | _ ↦ x ∷ y ∷ ys ]

  unfoldable pub sort_by : List A → List A
  sort_by [] = []
  sort_by (x ∷ xs) = insert_by x (sort_by xs)
