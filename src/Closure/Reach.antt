-- ===== src/Closure/Reach.antt =====
-- What the breadth-first loop of src/closure.rs reaches: the records that hops lead to from a seed.
use ahl_core.Prelude.{
  ℕ, zero, suc, Bool, true, false, ◌||◌, List, [], ◌∷◌, ◌≡◌, ◌↔◌, ◌⊎◌, inl, inr, refl, sym, ◌∙◌,
  arith, List-cases,
}
use ahl_core.Prelude.Order.{Ord}
use ahl_core.Prelude.Sets.{contains, same, same→eq, same_refl, contains-nil, contains-cons}
use ahl_core.Error.{ok}
use ahl_core.Closure.Graph.{Consumers, consumers_of, Search, scan, walk, start}
use ahl_core.Closure.Walk.{IsSplit, scan-seen, scan-queue, scan-new, scan-IsSplit}

module _ {A : Type 0} ⦃o : Ord A⦄ where
  -- The records that hops lead to from a seed, the seeds included.
  pub data Reached (next : A → List A) (seeds : List A) : A → Type 0 where
    seed : (x : A) → contains seeds x ≡ true → Reached next seeds x
    hop : (x y : A) → Reached next seeds x → contains (next x) y ≡ true → Reached next seeds y

  module _ (consumers : Consumers A) (seeds : List A) where
    abbrev next : A → List A
    next = consumers_of consumers

    record IsSearch (s : Search A) : Type 0 where
      split : IsSplit seeds s
      reached : (x : A) → contains s.seen x ≡ true → Reached next seeds x
      closed :
          (x : A)
          → contains s.seen x ≡ true
          → (contains s.queue x ≡ true)
            ⊎ ((y : A) → contains (next x) y ≡ true → contains s.seen y ≡ true)

    -- The state of one turn, after `current` left the queue.
    abbrev turn : Search A → A → List A → Search A
    turn s current rest = scan (record s { queue = rest }) (next current)

    module _ (s : Search A) (current : A) (rest : List A) (e : s.queue ≡ current ∷ rest)
        (h : IsSearch s) where
      in_queue : (x : A) → contains s.queue x ≡ (same x current || contains rest x)
      in_queue x = rw e (contains-cons current rest x)

      turn-seen :
          (x : A)
          → contains (turn s current rest).seen x ≡ (contains (next current) x || contains s.seen x)
      turn-seen x = scan-seen (record s { queue = rest }) (next current) x

      or_left : (a b : Bool) → a ≡ true → (a || b) ≡ true
      or_left a b p = rw p refl

      or_right : (a b : Bool) → b ≡ true → (a || b) ≡ true
      or_right a b p = ground arith

      or_cases : (a b : Bool) → (a || b) ≡ true → (a ≡ true) ⊎ (b ≡ true)
      or_cases true b p = inl refl
      or_cases false b p = inr p

      popped : contains s.seen current ≡ true
      popped = h.split.queued current (in_queue current ∙ or_left _ _ (same_refl current))

      turn-Reached : (x : A) → contains (turn s current rest).seen x ≡ true → Reached next seeds x
      turn-Reached x p =
          elim (or_cases (contains (next current) x) (contains s.seen x) (sym (turn-seen x) ∙ p)) [
            | inl new ↦ hop current x (h.reached current popped) new
            | inr old ↦ h.reached x old
          ]

      kept_seen : (x : A) → contains s.seen x ≡ true → contains (turn s current rest).seen x ≡ true
      kept_seen x p = turn-seen x ∙ or_right (contains (next current) x) (contains s.seen x) p

      hit :
          (x : A) → contains (next current) x ≡ true → contains (turn s current rest).seen x ≡ true
      hit x p = turn-seen x ∙ or_left (contains (next current) x) (contains s.seen x) p

      abbrev Closed : A → Type 0
      Closed x =
          (contains (turn s current rest).queue x ≡ true)
          ⊎ ((y : A) → contains (next x) y ≡ true → contains (turn s current rest).seen y ≡ true)

      waiting : (x : A) → contains s.queue x ≡ true → Closed x
      waiting x p = elim (or_cases (same x current) (contains rest x) (sym (in_queue x) ∙ p)) [
        | inl this ↦ rw (same→eq x current this) (inr hit)
        | inr later ↦ inl (scan-queue (record s { queue = rest }) (next current) x later)
      ]

      turn-Closed : (x : A) → contains (turn s current rest).seen x ≡ true → Closed x
      turn-Closed x p = elim (scan-new (record s { queue = rest }) (next current) x p) [
        | inr queued ↦ inl queued
        | inl old ↦ elim (h.closed x old) [
          | inl queued ↦ waiting x queued
          | inr all_seen ↦ inr (λ y q. kept_seen y (all_seen y q))
        ]
      ]

      popped-IsSplit : IsSplit seeds (record s { queue = rest })
      popped-IsSplit = record {
        seen_split = h.split.seen_split;
        apart = h.split.apart;
        queued =
            λ x p. h.split.queued x (in_queue x ∙ or_right (same x current) (contains rest x) p);
      }

      turn-IsSearch : IsSearch (turn s current rest)
      turn-IsSearch = record {
        split = scan-IsSplit seeds (record s { queue = rest }) (next current) popped-IsSplit;
        reached = turn-Reached;
        closed = turn-Closed;
      }

    walk-IsSearch :
        (fuel : ℕ) (s t : Search A)
        → IsSearch s
        → walk consumers fuel s ≡ ok t
        → IsSearch t × (t.queue ≡ [])
    unfolding walk
    walk-IsSearch zero s t h e = elim (List-cases s.queue) [
      | inl empty ↦ let same_state : s ≡ t = ground arith in rw (← same_state) (h, empty)
      | inr (u, rest, q) ↦ ground arith
    ]
    walk-IsSearch (suc fuel) s t h e = elim (List-cases s.queue) [
      | inl empty ↦ let same_state : s ≡ t = ground arith in rw (← same_state) (h, empty)
      | inr (u, rest, q) ↦
          walk-IsSearch fuel (turn s u rest) t (turn-IsSearch s u rest q h) (rw (q, walk) at e)
    ]

    start-IsSearch : IsSearch (start seeds)
    start-IsSearch = record {
      split = record {
        seen_split = λ x. rw contains-nil (ground arith);
        apart = λ x p. ground (arith, contains-nil x);
        queued = λ x p. p;
      };
      reached = seed;
      closed = λ x p. inl p;
    }

    -- Where the queue is empty, everything reached is seen.
    all_seen :
        (t : Search A)
        → IsSearch t
        → t.queue ≡ []
        → (x : A) → Reached next seeds x
        → contains t.seen x ≡ true
    all_seen t h empty x (seed y p) = h.split.seen_split y ∙ rw p refl
    all_seen t h empty x (hop y z path p) = elim (h.closed y (all_seen t h empty y path)) [
      | inl queued ↦ ground (arith, contains-nil y)
      | inr closed ↦ closed z p
    ]

    -- The records that the loop ends with are those that hops reach from a seed, without the seeds.
    pub walk-affected :
        (fuel : ℕ) (t : Search A)
        → walk consumers fuel (start seeds) ≡ ok t
        → (x : A)
        → (contains t.affected x ≡ true) ↔ (Reached next seeds x × (contains seeds x ≡ false))
    walk-affected fuel t e x =
        let (h, empty) = walk-IsSearch fuel (start seeds) t start-IsSearch e in
        (
          λ p. (h.reached x (h.split.seen_split x ∙ rw p (ground arith)), h.split.apart x p),
          λ (path, fresh). ground (arith, h.split.seen_split x, all_seen t h empty x path),
        )
