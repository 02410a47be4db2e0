-- ===== src/Closure/Walk.antt =====
-- One turn of the breadth-first loop of src/closure.rs: what is seen, queued and affected after it.
use ahl_core.Prelude.{
  Bool, true, false, not, ◌&&◌, ◌||◌, List, [], ◌∷◌, ◌≡◌, ◌⊎◌, inl, inr, refl, arith, Bool-cases,
}
use ahl_core.Prelude.Order.{Ord}
use ahl_core.Prelude.Sets.{
  contains, same, same→eq, same_refl, contains-nil, contains-single, contains-cons, contains-append,
  contains-insert_eq,
}
use ahl_core.Closure.Graph.{Search, offer, scan}

or_false : (b : Bool) → b ≡ (b || false)
or_false b = ground arith

or_comm : (a b : Bool) → (a || b) ≡ (b || a)
or_comm a b = ground arith

or_absorb : (a b : Bool) → (a ≡ true → b ≡ true) → b ≡ (a || b)
or_absorb true b f = f refl
or_absorb false b f = refl

module _ {A : Type 0} ⦃o : Ord A⦄ where
  contains-same :
      (xs : List A) (x r : A) → contains xs r ≡ true → same x r ≡ true → contains xs x ≡ true
  contains-same xs x r h e = rw (same→eq x r e) h

  same_sym : (x r : A) → same x r ≡ true → same r x ≡ true
  same_sym x r e = rw (same→eq x r e) (same_refl r)

  pub offer-seen :
      (s : Search A) (r x : A) → contains (offer s r).seen x ≡ (same x r || contains s.seen x)
  unfolding offer
  offer-seen s r x = elim (Bool-cases (contains s.seen r)) [
    | inl old ↦ rw old (or_absorb (same x r) (contains s.seen x) (contains-same s.seen x r old))
    | inr new ↦ rw (new, contains-insert_eq r s.seen x) refl
  ]

  -- Whether a record is one that the offer of `r` adds.
  abbrev adds : Search A → A → A → Bool
  adds s r x = not (contains s.seen r) && same x r

  pub offer-queue :
      (s : Search A) (r x : A) → contains (offer s r).queue x ≡ (contains s.queue x || adds s r x)
  unfolding offer
  offer-queue s r x = elim (Bool-cases (contains s.seen r)) [
    | inl old ↦ rw old (or_false (contains s.queue x))
    | inr new ↦ rw (new, contains-append s.queue (r ∷ []) x, contains-single r x) refl
  ]

  pub offer-affected :
      (s : Search A) (r x : A)
      → contains (offer s r).affected x ≡ (contains s.affected x || adds s r x)
  unfolding offer
  offer-affected s r x = elim (Bool-cases (contains s.seen r)) [
    | inl old ↦ rw old (or_false (contains s.affected x))
    | inr new ↦
        rw (new, contains-insert_eq r s.affected x) (or_comm (same x r) (contains s.affected x))
  ]

  -- The records that a scan newly sees go to the queue; nothing leaves.
  pub scan-seen :
      (s : Search A) (next : List A) (x : A)
      → contains (scan s next).seen x ≡ (contains next x || contains s.seen x)
  unfolding scan
  scan-seen s [] x = rw (contains-nil x) refl
  scan-seen s (r ∷ next) x =
      rw (scan-seen (offer s r) next x, offer-seen s r x, contains-cons r next x) (ground arith)

  pub scan-queue :
      (s : Search A) (next : List A) (x : A)
      → contains s.queue x ≡ true
      → contains (scan s next).queue x ≡ true
  unfolding scan
  scan-queue s [] x h = h
  scan-queue s (r ∷ next) x h = scan-queue (offer s r) next x (rw (offer-queue s r x, h) refl)

  offer-new :
      (s : Search A) (r x : A)
      → contains (offer s r).seen x ≡ true
      → contains s.seen x ≡ false
      → (contains s.queue x || adds s r x) ≡ true
  offer-new s r x h new = ground (arith, offer-seen s r x, contains-same s.seen x r)

  -- What a scan sees, it saw before or queues.
  pub scan-new :
      (s : Search A) (next : List A) (x : A)
      → contains (scan s next).seen x ≡ true
      → (contains s.seen x ≡ true) ⊎ (contains (scan s next).queue x ≡ true)
  unfolding scan
  scan-new s [] x h = inl h
  scan-new s (r ∷ next) x h = elim (scan-new (offer s r) next x h) [
    | inr queued ↦ inr queued
    | inl seen ↦ elim (Bool-cases (contains s.seen x)) [
      | inl old ↦ inl old
      | inr new ↦
          inr (scan-queue (offer s r) next x (rw (offer-queue s r x) (offer-new s r x seen new)))
    ]
  ]

  -- An affected record is seen, and no seed is affected: both are kept, and a seen record that is
  -- not a seed is affected.
  pub record IsSplit (seeds : List A) (s : Search A) : Type 0 where
    pub seen_split : (x : A) → contains s.seen x ≡ (contains seeds x || contains s.affected x)
    pub apart : (x : A) → contains s.affected x ≡ true → contains seeds x ≡ false
    pub queued : (x : A) → contains s.queue x ≡ true → contains s.seen x ≡ true

  offer-IsSplit :
      (seeds : List A) (s : Search A) (r : A) → IsSplit seeds s → IsSplit seeds (offer s r)
  offer-IsSplit seeds s r h = record {
    seen_split = λ x.
        ground
          (arith, offer-seen s r x, offer-affected s r x, h.seen_split x, contains-same s.seen x r);
    apart = λ x e. ground (
      arith,
      offer-affected s r x,
      h.apart x,
      h.seen_split x,
      contains-same s.seen r x,
      same_sym x r,
    );
    queued = λ x e. ground (arith, offer-queue s r x, offer-seen s r x, h.queued x);
  }

  pub scan-IsSplit :
      (seeds : List A) (s : Search A) (next : List A)
      → IsSplit seeds s
      → IsSplit seeds (scan s next)
  unfolding scan
  scan-IsSplit seeds s [] h = h
  scan-IsSplit seeds s (r ∷ next) h =
      scan-IsSplit seeds (offer s r) next (offer-IsSplit seeds s r h)
