-- ===== src/Closure/Affected.antt =====
-- The affected set of src/closure.rs against the edges: exactly what the trigger reaches.
use ahl_core.Prelude.{
  ℕ, ◌+◌, ◌≤◌, Bool, true, false, ◌&&◌, ◌||◌, some, List, [], ◌∷◌, ◌≡◌, ◌↔◌, inl, inr, refl, sym,
  ◌∙◌, any, map, length, length-map, get_elem?, arith, Bool-cases,
}
use ahl_core.Prelude.Order.{nat_ord, list_ord, pair_ord}
use ahl_core.Prelude.Sets.{contains, same, same→eq, same_refl, contains-nil}
use ahl_core.Prelude.Found.{any-witness, witness-any}
use ahl_core.Error.{ok}
use ahl_core.Bitemporal.{Clock, Scope, covers}
use ahl_core.Closure.Graph.{Search, consumer_map, consumers_of, start, walk}
use ahl_core.Closure.Reach.{Reached, seed, hop, walk-affected}
use ahl_core.Closure.Ends.{start-ends}
use ahl_core.Closure.Hops.{is_hop, consumers-map, contains-outputs}
use ahl_core.Closure.{RecordRef, Edge, Closure, covered, closure_of}

module _ (clock : Clock) (scope : Scope clock.Instant) (es : List (Edge clock.Instant)) where
  -- The records that the trigger reaches: the seeds, and with a record the output of every edge
  -- that consumes it and whose valid time the scope covers.
  pub data Derived (seeds : List RecordRef) : RecordRef → Type 0 where
    is_seed : (x : RecordRef) → contains seeds x ≡ true → Derived seeds x
    consume :
        (x y : RecordRef) (i : ℕ) (e : Edge clock.Instant)
        → Derived seeds x
        → get_elem? es i ≡ some e
        → covers clock scope e.valid_time ≡ true
        → e.input ≡ x
        → e.output ≡ y
        → Derived seeds y

  abbrev is_consumption : RecordRef → RecordRef → Edge clock.Instant → Bool
  is_consumption x y e = covers clock scope e.valid_time && is_hop x y (e.input, e.output)

any-covered :
    (clock : Clock) (scope : Scope clock.Instant) (es : List (Edge clock.Instant)) (x y : RecordRef)
    → any (is_hop x y) (covered clock scope es) ≡ any (is_consumption clock scope es x y) es
unfolding covered
any-covered clock scope [] x y = refl
any-covered clock scope (e ∷ es) x y = elim (Bool-cases (covers clock scope e.valid_time)) [
  | inl yes_covered ↦ rw (yes_covered, any-covered clock scope es x y) refl
  | inr not_covered ↦ rw (not_covered, any-covered clock scope es x y) refl
]

length-covered :
    (clock : Clock) (scope : Scope clock.Instant) (es : List (Edge clock.Instant))
    → length (covered clock scope es) ≤ length es
unfolding covered
length-covered clock scope [] = omega arith
length-covered clock scope (e ∷ es) = ground (arith, length-covered clock scope es)

module _ (clock : Clock) (scope : Scope clock.Instant) (es : List (Edge clock.Instant))
    (seeds : List RecordRef) where
  abbrev consumers : List (RecordRef × List RecordRef)
  consumers = consumer_map [] (covered clock scope es)

  consumers-eq :
      (x y : RecordRef)
      → contains (consumers_of consumers x) y ≡ any (is_consumption clock scope es x y) es
  unfolding consumers_of
  consumers-eq x y =
      consumers-map (covered clock scope es) [] x y
      ∙ rw (any-covered clock scope es x y, contains-nil y) (or_false _)
    where
      or_false : (b : Bool) → (b || false) ≡ b
      or_false b = ground arith

  derived :
      (x : RecordRef) → Reached (consumers_of consumers) seeds x → Derived clock scope es seeds x
  derived x (seed y p) = is_seed y p
  derived x (hop y z path p) =
      let (i, e, at, h) =
        any-witness (is_consumption clock scope es y z) es (sym (consumers-eq y z) ∙ p) in
      let (open_scope, ends) = and_parts (covers clock scope e.valid_time) _ h in
      let (from, to) = and_parts (same y e.input) (same z e.output) ends in
      consume y z i e (derived y path) at open_scope (sym (same→eq y e.input from))
        (sym (same→eq z e.output to))
    where
      and_parts : (a b : Bool) → a && b ≡ true → (a ≡ true) × (b ≡ true)
      and_parts a b e = (ground arith, ground arith)

  reached :
      (x : RecordRef) → Derived clock scope es seeds x → Reached (consumers_of consumers) seeds x
  reached x (is_seed y p) = seed y p
  reached x (consume y z i e path at open_scope from to) = hop y z (reached y path) (
      consumers-eq y z
      ∙ witness-any (is_consumption clock scope es y z) es i e at
          (rw (open_scope, from, to, same_refl y, same_refl z) refl))

  ends : (s : Search RecordRef) × (walk consumers (length seeds + length es) (start seeds) ≡ ok s)
  ends =
      start-ends (map (λ h. h.1) (covered clock scope es)) consumers seeds
        (length seeds + length es)
        (λ x y p.
          contains-outputs (covered clock scope es) x y
            (rw (any-covered clock scope es x y) (sym (consumers-eq x y) ∙ p)))
        (omega (
          arith,
          length-map (λ (h : RecordRef × RecordRef). h.1) (covered clock scope es),
          length-covered clock scope es,
        ))

  -- The closure ends, with the seeds given and exactly the reached records that are no seeds.
  pub closure_of_exact :
      (c : Closure) × (closure_of clock scope seeds es ≡ ok c)
      × (c.seeds ≡ seeds)
      × ((x : RecordRef)
          → (contains c.affected x ≡ true)
            ↔ (Derived clock scope es seeds x × (contains seeds x ≡ false)))
  unfolding closure_of
  closure_of_exact =
      let (s, e) = ends in
      (
        record { seeds = seeds; affected = s.affected },
        rw e refl,
        refl,
        λ x.
            let (there, back) = walk-affected consumers seeds (length seeds + length es) s e x in
            (
              λ p. let (path, fresh) = there p in (derived x path, fresh),
              λ (path, fresh). back (reached x path, fresh),
            ),
      )
