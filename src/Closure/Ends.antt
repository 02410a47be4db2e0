-- ===== src/Closure/Ends.antt =====
-- The breadth-first loop of src/closure.rs ends: each turn takes a record from the queue, and each
-- record is queued once.
use ahl_core.Prelude.{
  ℕ, zero, suc, ◌+◌, ◌≤◌, true, false, List, [], ◌∷◌, ◌≡◌, inl, inr, refl, sym, ap, ◌∙◌,
  if◌then◌else◌, length, length-append, arith, Bool-cases, List-cases,
}
use ahl_core.Prelude.Order.{Ord}
use ahl_core.Prelude.Sets.{
  contains, insert, same, same→eq, same_refl, contains-nil, contains-cons, contains-insert_eq,
}
use ahl_core.Error.{ok}
use ahl_core.Closure.Graph.{Consumers, consumers_of, Search, offer, scan, walk, start}

module _ {A : Type 0} ⦃o : Ord A⦄ where
  -- How many of the outputs have not been seen.
  unseen : List A → List A → ℕ
  unseen [] seen = 0
  unseen (x ∷ outputs) seen = (if contains seen x then 0 else 1) + unseen outputs seen

  unseen-insert-le :
      (outputs seen : List A) (r : A) → unseen outputs (insert r seen) ≤ unseen outputs seen
  unfolding unseen
  unseen-insert-le [] seen r = omega arith
  unseen-insert-le (x ∷ outputs) seen r =
      ground (arith, unseen-insert-le outputs seen r, contains-insert_eq r seen x)

  unseen-insert :
      (outputs seen : List A) (r : A)
      → contains outputs r ≡ true
      → contains seen r ≡ false
      → suc (unseen outputs (insert r seen)) ≤ unseen outputs seen
  unfolding unseen
  unseen-insert [] seen r h fresh = ground (arith, contains-nil r)
  unseen-insert (x ∷ outputs) seen r h fresh = elim (Bool-cases (same r x)) [
    | inl this ↦
        rw (sym (same→eq r x this), contains-insert_eq r seen r, same_refl r, fresh)
          (omega (arith, unseen-insert-le outputs seen r))
    | inr other ↦ ground (
      arith,
      contains-cons x outputs r,
      contains-insert_eq r seen x,
      unseen-insert outputs seen r,
    )
  ]

  module _ (outputs : List A) where
    work : Search A → ℕ
    work s = unseen outputs s.seen + length s.queue

    offer-work : (s : Search A) (r : A) → contains outputs r ≡ true → work (offer s r) ≤ work s
    unfolding offer work
    offer-work s r h = elim (Bool-cases (contains s.seen r)) [
      | inl old ↦ rw old (omega arith)
      | inr new ↦
          rw new
            (omega (arith, unseen-insert outputs s.seen r h new, length-append s.queue (r ∷ [])))
    ]

    scan-work :
        (s : Search A) (next : List A)
        → ((x : A) → contains next x ≡ true → contains outputs x ≡ true)
        → work (scan s next) ≤ work s
    unfolding scan
    scan-work s [] h = omega arith
    scan-work s (r ∷ next) h = omega (
      arith,
      offer-work s r (h r (contains-cons r next r ∙ rw (same_refl r) refl)),
      scan-work (offer s r) next (λ x p. h x (contains-cons r next x ∙ rw p (ground arith))),
    )

    walk-ends :
        (consumers : Consumers A) (fuel : ℕ) (s : Search A)
        → ((x y : A) → contains (consumers_of consumers x) y ≡ true → contains outputs y ≡ true)
        → work s ≤ fuel
        → (t : Search A) × (walk consumers fuel s ≡ ok t)
    unfolding walk work
    walk-ends consumers zero s h enough = elim (List-cases s.queue) [
      | inl empty ↦ (s, simp (empty, walk))
      | inr (u, rest, q) ↦ absurd (omega (arith, ap length q))
    ]
    walk-ends consumers (suc fuel) s h enough = elim (List-cases s.queue) [
      | inl empty ↦ (s, simp (empty, walk))
      | inr (u, rest, q) ↦
          let (t, e) =
            walk-ends consumers fuel (scan (record s { queue = rest }) (consumers_of consumers u)) h
              (omega (
                arith,
                ap length q,
                scan-work (record s { queue = rest }) (consumers_of consumers u) (h u),
              )) in
          (t, rw (q, walk) e)
    ]

    unseen-length : (seen : List A) (outs : List A) → unseen outs seen ≤ length outs
    unfolding unseen
    unseen-length seen [] = omega arith
    unseen-length seen (x ∷ outs) = ground (arith, unseen-length seen outs)

    -- From its start the loop ends within a turn for each seed and each output.
    pub start-ends :
        (consumers : Consumers A) (seeds : List A) (fuel : ℕ)
        → ((x y : A) → contains (consumers_of consumers x) y ≡ true → contains outputs y ≡ true)
        → length outputs + length seeds ≤ fuel
        → (t : Search A) × (walk consumers fuel (start seeds) ≡ ok t)
    unfolding work
    start-ends consumers seeds fuel h enough =
        walk-ends consumers fuel (start seeds) h
          (omega (arith, unseen-length seeds outputs, enough))
