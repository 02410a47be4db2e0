-- ===== src/RangeProof/Complete.antt =====
-- The proof that `generate` makes (range_proof.rs) replays to the root of the tree.
use mathlib.Core.List.{append_assoc, append-nil, map-append}
use native.Mathlib.Nat.{add-zero}
use ahl_core.Prelude.{
  ℕ, suc, ◌+◌, ◌-◌, ◌≤◌, ◌<◌, ◌≡◌, refl, sym, ap, ap₂, ◌∙◌, le→leb, List, [], ◌∷◌, ◌++◌, map, arith,
  some, length, length-append, get_elem?, length-map,
}
use ahl_core.Error.{ok}
use ahl_core.Merkle.{Hash, Merkle, IsRfc6962}
use ahl_core.Merkle.Roots.{slice, compute_root-slice, split-pos, length-slice, slice-slice}
use ahl_core.RangeProof.{
  u64_max, sat_add, sat_add_u32, RangeProof, get_range, checked_sub, checked_add, push_root,
  next_node, root_of_carried, recompute,
}
use ahl_core.RangeProof.Walk.{
  Cover, skip, keep, cut, recompute-skip, recompute-keep, recompute-cut, fold_spans,
  fold_spans-append, outside_spans, outside_spans-skip, outside_spans-keep, outside_spans-cut,
}

pub get_range-slice :
    (xs : List Hash) (o s hi : ℕ)
    → hi ≡ o + s
    → o + s ≤ length xs
    → get_range xs o hi ≡ some (slice o s xs)
unfolding get_range
get_range-slice xs o s hi e h = let width : hi - o ≡ s = omega arith in rw width (ground arith)

pub get_elem?-append :
    (pre post : List Hash) (x : Hash) → get_elem? (pre ++ x ∷ post) (length pre) ≡ some x
get_elem?-append [] post x = refl
get_elem?-append (y ∷ pre) post x = get_elem?-append pre post x

module _ (m : Merkle) (all : List Hash) where
  unfoldable pub span_root : ℕ × ℕ × ℕ → Hash
  span_root (o, s, d) = m.compute_root (slice o s all)

  push_root-slice :
      (o s d : ℕ) (nodes : List Hash)
      → o + s ≤ length all
      → length all ≤ u64_max
      → push_root m all o s d nodes ≡ nodes ++ span_root (o, s, d) ∷ []
  unfolding push_root span_root
  push_root-slice o s d nodes h range =
      rw (get_range-slice all o s (sat_add o s) (omega arith) h, push_root)

  module _ (from to : ℕ) where
    -- The nodes that `generate` pushes are the roots of the subtrees outside the range.
    pub push-eq-map :
        (fuel o s d : ℕ) (nodes : List Hash)
        → Cover m from to fuel o s
        → o + s ≤ length all
        → length all ≤ u64_max
        → fold_spans (push_root m all) (outside_spans m from to fuel o s d) nodes
          ≡ nodes ++ map span_root (outside_spans m from to fuel o s d)
    unfolding fold_spans
    push-eq-map fuel o s d nodes (skip e c) h range =
        rw (outside_spans-skip m from to fuel o s d e) (push_root-slice o s d nodes h range)
    push-eq-map fuel o s d nodes (keep e c) h range =
        rw (outside_spans-keep m from to fuel o s d e) (sym (append-nil nodes))
    push-eq-map (suc fuel) o s d nodes (cut e c at_k big split l r) h range =
        let k = m.largest_power_of_2_less_than s in
        let d' = sat_add_u32 d 1 in
        let left = outside_spans m from to fuel o k d' in
        let right = outside_spans m from to fuel (o + k) (s - k) d' in
        rw (outside_spans-cut m from to fuel o s d e at_k) (
          rw (fold_spans-append, map-append)
            (rw (push-eq-map fuel o k d' nodes l (omega arith) range) (
              push-eq-map fuel (o + k) (s - k) d' (nodes ++ map span_root left) r (omega arith)
                range
              ∙ append_assoc nodes (map span_root left) (map span_root right))))

    -- Each subtree outside the range takes at least one leaf.
    pub length-outside_spans :
        (fuel o s d : ℕ)
        → Cover m from to fuel o s
        → 0 < s
        → length (outside_spans m from to fuel o s d) ≤ s
    length-outside_spans fuel o s d (skip e c) h =
        rw (outside_spans-skip m from to fuel o s d e) (omega arith)
    length-outside_spans fuel o s d (keep e c) h =
        rw (outside_spans-keep m from to fuel o s d e) (omega arith)
    length-outside_spans (suc fuel) o s d (cut e c at_k big split l r) h =
        let k = m.largest_power_of_2_less_than s in
        let parts = split-pos big split in
        rw (outside_spans-cut m from to fuel o s d e at_k) (
          rw (length-append _ _) (
            omega (
              arith,
              length-outside_spans fuel o k _ l,
              length-outside_spans fuel (o + k) (s - k) _ r,
            )))

module _ (m : Merkle) (laws : IsRfc6962 m) (all : List Hash) (proof : RangeProof)
    (fits : proof.to_index ≤ length all) (range : length all ≤ u64_max) where
  -- The leaves that the prover carries.
  abbrev pub carried : List Hash
  carried = slice proof.from_index (proof.to_index - proof.from_index) all

  root_of_carried-slice :
      (o s cursor : ℕ)
      → proof.from_index ≤ o
      → o + s ≤ proof.to_index
      → root_of_carried m o s proof carried cursor ≡ ok (m.compute_root (slice o s all), cursor)
  unfolding root_of_carried checked_sub checked_add
  root_of_carried-slice o s cursor low high =
      let lo = o - proof.from_index in
      let n = proof.to_index - proof.from_index in
      let back : proof.from_index + lo ≡ o = omega arith in
      let read =
        get_range-slice carried lo s (lo + s) refl
          (omega (arith, length-slice proof.from_index n all))
        ∙ ap some (
            slice-slice lo s proof.from_index n all (omega arith) ∙ ap (λ i. slice i s all) back) in
      rw (le→leb proof.from_index o low) (rw (le→leb (lo + s) u64_max (omega arith)) (rw read))

  sat_add-eq : (c : ℕ) → c + 1 ≤ u64_max → sat_add c 1 ≡ c + 1
  sat_add-eq c h = omega arith

  next_node-at :
      (pre post : List Hash) (x : Hash)
      → proof.nodes ≡ pre ++ x ∷ post
      → length proof.nodes ≤ u64_max
      → next_node m proof (length pre) ≡ ok (x, length pre + 1)
  unfolding next_node
  next_node-at pre post x e bound =
      let room : length pre + 1 ≤ u64_max =
        omega (arith, ap length e, length-append pre (x ∷ post)) in
      rw e (rw get_elem?-append (ap (λ c. ok (x, c)) (sat_add-eq (length pre) room)))

  -- With the roots of the subtrees outside the range in their places, the recomputation takes each
  -- of them once and yields the root of the subtree.
  pub recompute_complete :
      (fuel o s d : ℕ) (pre post : List Hash)
      → Cover m proof.from_index proof.to_index fuel o s
      → o + s ≤ length all
      → proof.nodes
        ≡ pre
          ++ map (span_root m all) (outside_spans m proof.from_index proof.to_index fuel o s d)
          ++ post
      → length proof.nodes ≤ u64_max
      → recompute m fuel o s proof carried (length pre)
        ≡ ok (
          m.compute_root (slice o s all),
          length pre + length (outside_spans m proof.from_index proof.to_index fuel o s d),
        )
  unfolding span_root
  recompute_complete fuel o s d pre post (skip e c) within nodes bound =
      let n =
        (rw (outside_spans-skip m proof.from_index proof.to_index fuel o s d e) at nodes)
        ∙ append_assoc pre (span_root m all (o, s, d) ∷ []) post in
      rw
        (
          recompute-skip m proof carried fuel o s (length pre) e,
          outside_spans-skip m proof.from_index proof.to_index fuel o s d e,
        )
        (next_node-at pre post (span_root m all (o, s, d)) n bound)
  recompute_complete fuel o s d pre post (keep e c) within nodes bound =
      rw
        (
          recompute-keep m proof carried fuel o s (length pre) e,
          outside_spans-keep m proof.from_index proof.to_index fuel o s d e,
        )
        (root_of_carried-slice o s (length pre) c.0 c.1
          ∙ ap (λ i. ok (m.compute_root (slice o s all), i)) (sym (add-zero (length pre))))
  recompute_complete (suc fuel) o s d pre post (cut e c at_k big split l r) within nodes bound =
      let k = m.largest_power_of_2_less_than s in
      let d' = sat_add_u32 d 1 in
      let left = outside_spans m proof.from_index proof.to_index fuel o k d' in
      let right = outside_spans m proof.from_index proof.to_index fuel (o + k) (s - k) d' in
      let here = map (span_root m all) left in
      let there = map (span_root m all) right in
      let spans = outside_spans-cut m proof.from_index proof.to_index fuel o s d e at_k in
      let split_nodes = rw (spans, map-append) at nodes in
      let cursor : length (pre ++ here) ≡ length pre + length left =
        omega (arith, length-append pre here, length-map (span_root m all) left) in
      let ran_left =
        recompute_complete fuel o k d' pre (there ++ post) l (omega arith)
          (split_nodes ∙ (simp append_assoc)) bound in
      let ran_right =
        recompute_complete fuel (o + k) (s - k) d' (pre ++ here) post r (omega arith)
          (split_nodes ∙ (simp append_assoc)) bound in
      rw (recompute-cut m proof carried fuel o s (length pre) e at_k, spans)
        (rw (ran_left) (
          rw (rw cursor at ran_right) (
            ap₂ (λ h i. ok (h, i)) (sym (compute_root-slice m laws o s all big within))
              (omega (arith, length-append left right)))))
