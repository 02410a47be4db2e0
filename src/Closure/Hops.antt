-- ===== src/Closure/Hops.antt =====
-- The map of consumers of src/closure.rs against the edges that it is made of.
use ahl_core.Prelude.{
  Bool, true, false, ◌&&◌, ◌||◌, List, [], ◌∷◌, ◌≡◌, inl, inr, refl, sym, ap, ◌∙◌, any, map, arith,
  Bool-cases,
}
use ahl_core.Prelude.Order.{Ord}
use ahl_core.Prelude.Sets.{contains, same, same→eq, contains-nil, contains-cons, contains-insert_eq}
use ahl_core.Closure.Graph.{Consumers, add_consumer, consumers_of, consumer_map}

shuffle : (a b c : Bool) → (a || (b || c)) ≡ ((b || a) || c)
shuffle a b c = ground arith

module _ {A : Type 0} ⦃o : Ord A⦄ where
  -- Whether this pair is the hop from `x` to `y`.
  abbrev pub is_hop : A → A → A × A → Bool
  is_hop x y (a, b) = same x a && same y b

  not_same : (x a k : A) → same x k ≡ true → same a k ≡ false → same x a ≡ false
  not_same x a k here other = elim (Bool-cases (same x a)) [
    | inl this ↦ absurd_bool (same a k) (rw (sym (same→eq x a this)) here) other
    | inr differs ↦ differs
  ]
    where
      absurd_bool : (b : Bool) → b ≡ true → b ≡ false → same x a ≡ false
      absurd_bool b p q = cc

  consumers-add :
      (a b : A) (cs : Consumers A) (x y : A)
      → contains (consumers_of (add_consumer a b cs) x) y
        ≡ (is_hop x y (a, b) || contains (consumers_of cs x) y)
  unfolding add_consumer consumers_of
  consumers-add a b [] x y = elim (Bool-cases (same x a)) [
    | inl here ↦ rw (here, contains-insert_eq b [] y, contains-nil y) refl
    | inr away ↦ rw (away, contains-nil y) refl
  ]
  consumers-add a b ((k, v) ∷ rest) x y = elim (Bool-cases (same a k)) [
    | inl this ↦
        rw (this, sym (same→eq a k this))
          (elim (Bool-cases (same x a)) [
            | inl here ↦ rw (here, contains-insert_eq b v y) refl
            | inr away ↦ rw away refl
          ])
    | inr other ↦ rw other (elim (Bool-cases (same x k)) [
      | inl here ↦ rw (here, not_same x a k here other) refl
      | inr away ↦ rw away (consumers-add a b rest x y)
    ])
  ]

  pub consumers-map :
      (hops : List (A × A)) (acc : Consumers A) (x y : A)
      → contains (consumers_of (consumer_map acc hops) x) y
        ≡ (any (is_hop x y) hops || contains (consumers_of acc x) y)
  unfolding consumer_map
  consumers-map [] acc x y = refl
  consumers-map ((a, b) ∷ hops) acc x y =
      consumers-map hops (add_consumer a b acc) x y
      ∙ ap (λ c. any (is_hop x y) hops || c) (consumers-add a b acc x y)
      ∙ shuffle (any (is_hop x y) hops) (is_hop x y (a, b)) (contains (consumers_of acc x) y)

  -- The outputs of the hops.
  pub contains-outputs :
      (hops : List (A × A)) (x y : A)
      → any (is_hop x y) hops ≡ true
      → contains (map (λ (h : A × A). h.1) hops) y ≡ true
  contains-outputs [] x y e = cc
  contains-outputs ((a, b) ∷ hops) x y e =
      contains-cons b (map (λ h. h.1) hops) y ∙ ground (arith, contains-outputs hops x y)
