-- ===== src/Closure/Checkpoint.antt =====
-- `affected_set` of src/closure.rs at a checkpoint, and at a later one.
use ahl_core.Prelude.{
  ℕ, zero, suc, ◌≤◌, true, false, some, List, [], ◌∷◌, ◌++◌, Bytes, Str, ◌≡◌, ◌↔◌, refl, sym, ap,
  ◌∙◌, get_elem?, take, arith,
}
use mathlib.Core.List.{append_assoc, append-nil}
use ahl_core.Prelude.Order.{nat_ord, list_ord, pair_ord}
use ahl_core.Prelude.Sets.{contains}
use ahl_core.Error.{ok, ◌>>=◌, AhlResult, bind-eq-ok, ok-injective}
use ahl_core.Json.{Json}
use ahl_core.Merkle.{Hash, Merkle}
use ahl_core.Bitemporal.{Clock, Scope, scope_from_payload}
use ahl_core.Closure.{
  RecordRef, Edge, Closure, TreeMaterial, closure_of, trigger_payload, trigger_seeds, edges,
  edges_from, envelope_edges, affected_set,
}
use ahl_core.Closure.Affected.{Derived, is_seed, consume, closure_of_exact}

-- The first edges of a longer list stand at the same places.
get_elem?-append {ℓ} :
    {A : Type ℓ} (xs ys : List A) (i : ℕ) (x : A)
    → get_elem? xs i ≡ some x
    → get_elem? (xs ++ ys) i ≡ some x
get_elem?-append [] ys i x e = cc
get_elem?-append (y ∷ xs) ys zero x e = e
get_elem?-append (y ∷ xs) ys (suc i) x e = get_elem?-append xs ys i x e

Derived-append :
    (clock : Clock) (scope : Scope clock.Instant) (es more : List (Edge clock.Instant))
    (seeds : List RecordRef) (x : RecordRef)
    → Derived clock scope es seeds x
    → Derived clock scope (es ++ more) seeds x
Derived-append clock scope es more seeds x (is_seed y p) = is_seed y p
Derived-append clock scope es more seeds x (consume y z i e path at open_scope from to) =
    consume y z i e (Derived-append clock scope es more seeds y path)
      (get_elem?-append es more i e at) open_scope from to

module _ (json : Json) (clock : Clock) (m : Merkle) (sha256 : Bytes → Hash)
    (hex : Bytes → Str) where
  open json use {Value}
  open clock use {Instant}

  abbrev affected : List Value → TreeMaterial json → ℕ → ℕ → AhlResult Closure
  affected = affected_set json clock m sha256 hex

  -- `affected_set` on a trigger whose payload, scope and seeds are read and whose edges are
  -- recovered ends with a closure: its seeds are the trigger's, and a record is affected exactly
  -- when the edges whose valid time the scope covers lead to it from a seed and it is no seed.
  pub affected_set_exact :
      (envelopes : List Value) (trees : TreeMaterial json) (trigger through : ℕ) (payload : Value)
      (scope : Scope Instant) (seeds : List RecordRef) (es : List (Edge Instant))
      → trigger_payload json envelopes trigger ≡ ok payload
      → scope_from_payload json clock payload ≡ ok scope
      → trigger_seeds json envelopes trigger ≡ ok seeds
      → edges json clock m sha256 hex envelopes trees through ≡ ok es
      → (c : Closure) × (affected envelopes trees trigger through ≡ ok c)
        × (c.seeds ≡ seeds)
        × ((x : RecordRef)
            → (contains c.affected x ≡ true)
              ↔ (Derived clock scope es seeds x × (contains seeds x ≡ false)))
  unfolding affected_set
  affected_set_exact envelopes trees trigger through payload scope seeds es e1 e2 e3 e4 =
      let (c, ends, seeded, exact) = closure_of_exact clock scope es seeds in
      (c, rw (e1, e2, e3, e4) ends, seeded, exact)

  abbrev collect : TreeMaterial json → ℕ → List Value → AhlResult (List (Edge Instant))
  collect = edges_from json clock m sha256 hex

  abbrev here_of : TreeMaterial json → ℕ → Value → AhlResult (List (Edge Instant))
  here_of = envelope_edges json clock m sha256 hex

  abbrev with_later : List (Edge Instant) → List (Edge Instant) → AhlResult (List (Edge Instant))
  with_later here later = ok (here ++ later)

  abbrev with_here :
      TreeMaterial json → ℕ → List Value → List (Edge Instant) → AhlResult (List (Edge Instant))
  with_here trees index rest here = collect trees (suc index) rest >>= with_later here

  -- The edges of fewer envelopes come first.
  edges_from-take :
      (trees : TreeMaterial json) (index n k : ℕ) (envelopes : List Value)
      (all : List (Edge Instant))
      → n ≤ k
      → collect trees index (take k envelopes) ≡ ok all
      → (es : List (Edge Instant)) × (more : List (Edge Instant)) × (collect trees index
            (take n envelopes)
          ≡ ok es)
        × (all ≡ es ++ more)
  unfolding edges_from
  edges_from-take trees index zero k envelopes all h e = ([], all, refl, refl)
  edges_from-take trees index (suc n) zero envelopes all h e = absurd (omega (arith, h))
  edges_from-take trees index (suc n) (suc k) [] all h e = (all, [], e, sym (append-nil all))
  edges_from-take trees index (suc n) (suc k) (envelope ∷ rest) all h e =
      let (here, e1, r1) =
        bind-eq-ok (with_here trees index (take k rest)) (here_of trees index envelope) e in
      let (later, e2, r2) =
        bind-eq-ok (with_later here) (collect trees (suc index) (take k rest)) r1 in
      let (es, more, e3, cut) =
        edges_from-take trees (suc index) n k rest later (omega (arith, h)) e2 in
      (
        here ++ es,
        more,
        rw (e1, e3) refl,
        sym (ok-injective (here ++ later) all r2) ∙ rw cut (sym (append_assoc here es more)),
      )

  abbrev after_seeds :
      List Value → TreeMaterial json → ℕ → Scope Instant → List RecordRef → AhlResult Closure
  after_seeds envelopes trees k scope seeds =
      edges json clock m sha256 hex envelopes trees k >>= λ es. closure_of clock scope seeds es

  abbrev after_scope : List Value → TreeMaterial json → ℕ → ℕ → Scope Instant → AhlResult Closure
  after_scope envelopes trees trigger k scope =
      trigger_seeds json envelopes trigger >>= λ seeds. after_seeds envelopes trees k scope seeds

  abbrev after_payload : List Value → TreeMaterial json → ℕ → ℕ → Value → AhlResult Closure
  after_payload envelopes trees trigger k payload =
      scope_from_payload json clock payload >>= λ scope. after_scope envelopes trees trigger k scope

  -- A closure at a checkpoint contains the closure of the same trigger at every earlier one.
  pub affected_set_monotone :
      (envelopes : List Value) (trees : TreeMaterial json) (trigger n k : ℕ) (later : Closure)
      → n ≤ k
      → affected envelopes trees trigger k ≡ ok later
      → (earlier : Closure) × (affected envelopes trees trigger n ≡ ok earlier)
        × (earlier.seeds ≡ later.seeds)
        × ((x : RecordRef) → contains earlier.affected x ≡ true → contains later.affected x ≡ true)
  unfolding affected_set edges
  affected_set_monotone envelopes trees trigger n k later h e =
      let (payload, e1, r1) =
        bind-eq-ok (after_payload envelopes trees trigger k)
          (trigger_payload json envelopes trigger) e in
      let (scope, e2, r2) =
        bind-eq-ok (after_scope envelopes trees trigger k) (scope_from_payload json clock payload)
          r1 in
      let (seeds, e3, r3) =
        bind-eq-ok (after_seeds envelopes trees k scope) (trigger_seeds json envelopes trigger)
          r2 in
      let (all, e4, r4) =
        bind-eq-ok (closure_of clock scope seeds) (edges json clock m sha256 hex envelopes trees k)
          r3 in
      let (es, more, e5, cut) = edges_from-take trees 0 n k envelopes all h e4 in
      let (c, ran, seeded, exact) = closure_of_exact clock scope es seeds in
      let (d, ran', seeded', exact') = closure_of_exact clock scope all seeds in
      let same = ok-injective d later (sym ran' ∙ r4) in
      (
        c,
        rw (e1, e2, e3, e5) ran,
        seeded ∙ sym seeded' ∙ ap (λ (x : Closure). x.seeds) same,
        λ x p.
            let (path, fresh) = (exact x).0 p in
            sym (ap (λ (y : Closure). contains y.affected x) same)
            ∙ (exact' x).1 (rw cut (Derived-append clock scope es more seeds x path), fresh),
      )
