-- ===== src/RangeProof/RoundTrip.antt =====
-- `generate` and `verify` (range_proof.rs) together.
use ahl_core.Prelude.{
  ℕ, ◌+◌, ◌-◌, ◌≤◌, ◌<◌, ◌≡◌, refl, sym, ap, ap₂, ◌∙◌, true, false, List, [], ◌∷◌, map, arith, some,
  length, length-map, get_elem?, le→leb, ==_iff, take-all, str_eq_refl, Bool, ◌==◌, if◌then◌else◌,
}
use mathlib.Core.Path.{subst}
use mathlib.Core.List.{append-nil}
use ahl_core.Error.{AhlResult, ok}
use ahl_core.Merkle.{Hash, Merkle, IsRfc6962}
use ahl_core.Merkle.Roots.{slice, length-slice, get_elem?-slice}
use ahl_core.RangeProof.{
  u64_max, sort_by_depth, collect_node, RangeProof, check_range, checked_sub, push_root, generate,
  verify, cross_check, as_inclusion, recompute,
}
use ahl_core.RangeProof.Walk.{cover, outside_spans, walk_outside-eq-fold}
use ahl_core.RangeProof.Complete.{span_root, push-eq-map, recompute_complete, length-outside_spans}
use ahl_core.RangeProof.Inclusion.{AcceptsAuditPaths, audit_path, audited, collect-eq-labelled}

check_range-ok : (n from to : ℕ) → from < to → to ≤ n → check_range n from to ≡ ok tt
unfolding check_range
check_range-ok n from to width fits = ground arith

same : (a : ℕ) → (a == a) ≡ true
same a = ground arith

last_step :
    (b : Bool) (r : AhlResult Bool)
    → (b ≡ true → r ≡ ok true)
    → (if b then r else ok true) ≡ ok true
last_step true r h = h refl
last_step false r h = refl

-- A list of length one, read at its only index.
head_of_one :
    (xs : List Hash) → length xs ≡ 1 → (x : Hash) × (xs ≡ x ∷ []) × (get_elem? xs 0 ≡ some x)
head_of_one [] h = absurd (omega arith)
head_of_one (x ∷ []) h = (x, refl, refl)
head_of_one (x ∷ y ∷ xs) h = absurd (omega arith)

module _ (m : Merkle) (all : List Hash) (from to : ℕ) where
  abbrev nodes : List Hash
  nodes = map (span_root m all) (outside_spans m from to (length all) 0 (length all) 0)

  -- The proof that `generate` makes for a valid range.
  abbrev honest : RangeProof
  honest = record { tree_size = length all; from_index = from; to_index = to; nodes = nodes }

module _ (m : Merkle) (laws : IsRfc6962 m) (all : List Hash) (from to : ℕ) where
  generate-eq :
      from < to
      → to ≤ length all
      → length all ≤ u64_max
      → generate m all from to ≡ ok (honest m all from to)
  unfolding generate
  generate-eq width fits range =
      let n = length all in
      let covered = cover m laws from to n 0 n (omega arith) (omega arith) in
      rw (check_range-ok n from to width fits) (
        ap (λ ns. ok (record { tree_size = n; from_index = from; to_index = to; nodes = ns }))
          (walk_outside-eq-fold m from to n 0 n 0 (push_root m all) [] covered
            ∙ push-eq-map m all from to n 0 n 0 [] covered (omega arith) range))

  length-nodes :
      to ≤ length all → from < to → length all ≤ u64_max → length (nodes m all from to) ≤ length all
  length-nodes fits width range = omega (
    arith,
    length-map (span_root m all) (outside_spans m from to (length all) 0 (length all) 0),
    length-outside_spans m all from to (length all) 0 (length all) 0
        (cover m laws from to (length all) 0 (length all) (omega arith) (omega arith)),
  )

  recompute-honest :
      from < to
      → to ≤ length all
      → length all ≤ u64_max
      → recompute m
          (length all)
          0
          (length all)
          (honest m all from to)
          (slice from (to - from) all)
          0
        ≡ ok (m.compute_root all, length (nodes m all from to))
  recompute-honest width fits range =
      let n = length all in
      recompute_complete m laws all (honest m all from to) fits range n 0 n 0 [] []
        (cover m laws from to n 0 n (omega arith) (omega arith)) (omega arith)
        (sym (append-nil (nodes m all from to))) (omega (arith, length-nodes fits width range))
      ∙ ap₂ (λ l c. ok (m.compute_root l, c)) (take-all n all (omega arith))
          (omega (arith, length-map (span_root m all) (outside_spans m from to n 0 n 0)))

module _ (m : Merkle) (laws : IsRfc6962 m) (honours : AcceptsAuditPaths m) (all : List Hash) where
  as_inclusion-honest :
      (i : ℕ)
      → i < length all
      → length all ≤ u64_max
      → (as_inclusion m (honest m all i (i + 1))).path ≡ audit_path m all i
  unfolding as_inclusion
  as_inclusion-honest i within range =
      let n = length all in
      let covered = cover m laws i (i + 1) n 0 n (omega arith) (omega arith) in
      ap (λ x. map (λ y. y.1) (sort_by_depth x.0))
        (walk_outside-eq-fold m i (i + 1) n 0 n 0 (collect_node m (nodes m all i (i + 1))) ([], 0)
            covered
          ∙ collect-eq-labelled m all (outside_spans m i (i + 1) n 0 n 0) [] []
              (nodes m all i (i + 1)) refl
              (omega (arith, length-nodes m laws all i (i + 1) (omega arith) (omega arith) range)))
      ∙ (audited m all i 64 n 0 n 0 covered (omega arith) (omega arith) (omega arith)
          (omega arith)).path

  as_inclusion-eq :
      (i : ℕ)
      → i < length all
      → length all ≤ u64_max
      → as_inclusion m (honest m all i (i + 1))
        ≡ record { leaf_index = i; tree_size = length all; path = audit_path m all i }
  unfolding as_inclusion
  as_inclusion-eq i within range =
      ap (λ p. record { leaf_index = i; tree_size = length all; path = p })
        (as_inclusion-honest i within range)

  cross_check-honest :
      (i : ℕ)
      → i < length all
      → length all ≤ u64_max
      → cross_check m (honest m all i (i + 1)) (slice i 1 all) (m.compute_root all) ≡ ok true
  unfolding cross_check
  cross_check-honest i within range =
      let (x, only, first) = head_of_one (slice i 1 all) (length-slice i 1 all (omega arith)) in
      let entry =
        ap (get_elem? all) {y = i + 0} (omega arith)
        ∙ sym (get_elem?-slice i 1 0 all (omega arith))
        ∙ first in
      rw only (
        rw (
          ap (λ p. m.verify_inclusion x p (m.compute_root all)) (as_inclusion-eq i within range)
          ∙ honours.accepts all i x entry))

  cross_check-width :
      (from to : ℕ)
      → to ≡ from + 1
      → from < to
      → to ≤ length all
      → length all ≤ u64_max
      → cross_check m (honest m all from to) (slice from (to - from) all) (m.compute_root all)
        ≡ ok true
  cross_check-width from to e width fits range =
      let one : to - from ≡ 1 = omega arith in
      rw one (
        subst
          (λ t.
            cross_check m (honest m all from t) (slice from 1 all) (m.compute_root all) ≡ ok true)
          (sym e) (cross_check-honest from (omega arith) range))

  -- For every non-empty sub-range of a tree of at most 2^64 - 1 leaves, `generate` makes a proof, and
  -- `verify` accepts it with the entries of that range under the root of the tree, the cross-check of
  -- a one-entry range included, provided the inclusion verifier accepts RFC 6962 audit paths.
  pub generate-verifies :
      (from to : ℕ)
      → from < to
      → to ≤ length all
      → length all ≤ u64_max
      → (proof : RangeProof) × (generate m all from to ≡ ok proof)
        × (verify m proof (slice from (to - from) all) (m.compute_root all) ≡ ok true)
  unfolding verify checked_sub
  generate-verifies from to width fits range =
      (honest m all from to, generate-eq m laws all from to width fits range, accepted)
    where
      n : ℕ
      n = length all

      accepted :
          verify m (honest m all from to) (slice from (to - from) all) (m.compute_root all)
          ≡ ok true
      accepted =
          rw
            (
              check_range-ok n from to width fits,
              le→leb from to (omega arith),
              length-slice from (to - from) all (omega arith),
              recompute-honest m laws all from to width fits range,
            )
            (rw
              (
                same (to - from),
                same (length (nodes m all from to)),
                str_eq_refl (m.compute_root all),
              )
              (last_step (to - from == 1) _ λ one.
                cross_check-width from to (omega (arith, (==_iff (to - from) 1).0 one)) width fits
                  range))
