-- ===== src/RangeProof/Sound.antt =====
-- What an accepted range proof (range_proof.rs, `verify`) establishes.
use ahl_core.Prelude.{
  ℕ, suc, ◌+◌, ◌-◌, ◌≤◌, ◌<◌, ◌≡◌, ◌⊎◌, inl, inr, refl, sym, ap, ◌∙◌, true, Bool-cases, List, arith,
  some, length, get_elem?, take-all, ltb, str_eq_iff,
}
use ahl_core.Error.{AhlResult, ok, err}
use ahl_core.Merkle.{Hash, Merkle, IsRfc6962, Collision}
use ahl_core.Merkle.Roots.{
  slice, length-slice, get_elem?-slice, eq_of_get_elem?, compute_root-slice, children-eq,
  compute_root-injective, split-pos,
}
use ahl_core.RangeProof.{
  u64_max, RangeProof, get_range, checked_sub, checked_add, check_range, root_of_carried, recompute,
  verify,
}
use ahl_core.RangeProof.Walk.{
  Cover, skip, keep, cut, cover, recompute-keep, recompute-cut, join_right, join_roots,
}

-- What a successful read of a span says.
get_range-eq_some :
    (xs : List Hash) (lo hi : ℕ) (span : List Hash)
    → get_range xs lo hi ≡ some span
    → (lo ≤ hi) × (hi ≤ length xs) × (span ≡ slice lo (hi - lo) xs)
unfolding get_range
get_range-eq_some xs lo hi span h = ground arith

root_of_carried-eq-ok :
    (m : Merkle) (offset size : ℕ) (proof : RangeProof) (leaves : List Hash) (cursor : ℕ) (h : Hash)
    (cursor' : ℕ)
    → root_of_carried m offset size proof leaves cursor ≡ ok (h, cursor')
    → (offset - proof.from_index + size ≤ length leaves)
      × (h ≡ m.compute_root (slice (offset - proof.from_index) size leaves))
unfolding root_of_carried checked_sub checked_add get_range
root_of_carried-eq-ok m offset size proof leaves cursor h cursor' e = ground arith

-- The carried leaves agree with the tree on the part of the range inside this subtree.
module _ (proof : RangeProof) (leaves all : List Hash) where
  abbrev Agree : ℕ → ℕ → Type 0
  Agree offset size =
      (i : ℕ)
      → proof.from_index ≤ i
      → i < proof.to_index
      → offset ≤ i
      → i < offset + size
      → get_elem? leaves (i - proof.from_index) ≡ get_elem? all i

  Agree-cut :
      (offset size k : ℕ)
      → k < size
      → Agree offset k
      → Agree (offset + k) (size - k)
      → Agree offset size
  Agree-cut offset size k h left right i p q r s = elim (Bool-cases (ltb i (offset + k))) [
    | inl below ↦ left i p q r (ground arith)
    | inr above ↦ right i p q (ground arith) (omega arith)
  ]

  Agree-of_slice :
      (offset size : ℕ)
      → proof.from_index ≤ offset
      → slice (offset - proof.from_index) size leaves ≡ slice offset size all
      → Agree offset size
  Agree-of_slice offset size h e i p q r s =
      let j = i - offset in
      let here : j < size = omega arith in
      let mine = get_elem?-slice (offset - proof.from_index) size j leaves here in
      let theirs = get_elem?-slice offset size j all here in
      let at_mine : i - proof.from_index ≡ offset - proof.from_index + j = omega arith in
      let at_theirs : offset + j ≡ i = omega arith in
      ap (get_elem? leaves) at_mine
      ∙ sym mine
      ∙ ap (λ l. get_elem? l j) e
      ∙ theirs
      ∙ ap (get_elem? all) at_theirs

-- What a successful recomputation of a cut went through.
right-eq-ok :
    (m : Merkle) (a : Hash) (right : AhlResult (Hash × ℕ)) (h : Hash) (cursor' : ℕ)
    → join_right m a right ≡ ok (h, cursor')
    → (b : Hash) × (right ≡ ok (b, cursor')) × (m.hash_children a b ≡ h)
right-eq-ok m a (err x) h cursor' e = cc
right-eq-ok m a (ok (b, d)) h cursor' e = (b, ground arith, ground arith)

join-eq-ok :
    (m : Merkle) (left : AhlResult (Hash × ℕ)) (right : ℕ → AhlResult (Hash × ℕ)) (h : Hash)
    (cursor' : ℕ)
    → join_roots m left right ≡ ok (h, cursor')
    → (a : Hash) × (c : ℕ) × (b : Hash) × (left ≡ ok (a, c))
      × (right c ≡ ok (b, cursor'))
      × (m.hash_children a b ≡ h)
join-eq-ok m (err x) right h cursor' e = cc
join-eq-ok m (ok (a, c)) right h cursor' e =
    let (b, ran, parent) = right-eq-ok m a (right c) h cursor' e in (a, c, b, refl, ran, parent)

-- What an accepted proof went through.
verify-eq-true :
    (m : Merkle) (proof : RangeProof) (leaves : List Hash) (root : Hash)
    → verify m proof leaves root ≡ ok true
    → (c : ℕ) × (proof.from_index < proof.to_index)
      × (proof.to_index ≤ proof.tree_size)
      × (length leaves ≡ proof.to_index - proof.from_index)
      × (recompute m proof.tree_size 0 proof.tree_size proof leaves 0 ≡ ok (root, c))
unfolding verify check_range checked_sub
verify-eq-true m proof leaves root accepted =
    by_result (recompute m proof.tree_size 0 proof.tree_size proof leaves 0) refl
  where
    by_result :
        (r : AhlResult (Hash × ℕ))
        → recompute m proof.tree_size 0 proof.tree_size proof leaves 0 ≡ r
        → (c : ℕ) × (proof.from_index < proof.to_index)
          × (proof.to_index ≤ proof.tree_size)
          × (length leaves ≡ proof.to_index - proof.from_index)
          × (recompute m proof.tree_size 0 proof.tree_size proof leaves 0 ≡ ok (root, c))
    by_result (err x) e = ground arith
    by_result (ok (h, c)) e =
        (c, ground arith, ground arith, ground arith, ground (arith, str_eq_iff h root))

-- Agreement on the whole tree is equality with the range of the tree.
range-eq :
    (proof : RangeProof) (leaves all : List Hash)
    → proof.from_index < proof.to_index
    → proof.to_index ≤ length all
    → length all ≡ proof.tree_size
    → length leaves ≡ proof.to_index - proof.from_index
    → Agree proof leaves all 0 proof.tree_size
    → leaves ≡ slice proof.from_index (proof.to_index - proof.from_index) all
range-eq proof leaves all width fits size count agree =
    let n = proof.to_index - proof.from_index in
    eq_of_get_elem? leaves (slice proof.from_index n all)
      (omega (arith, length-slice proof.from_index n all))
      λ j below.
        let back : proof.from_index + j - proof.from_index ≡ j = omega arith in
        ap (get_elem? leaves) (sym back)
        ∙ agree (proof.from_index + j) (omega arith) (omega arith) (omega arith) (omega arith)
        ∙ sym (get_elem?-slice proof.from_index n j all (omega arith))

module _ (m : Merkle) (laws : IsRfc6962 m) (proof : RangeProof) (leaves all : List Hash) where
  Agree-join :
      (offset size k : ℕ)
      → k < size
      → Agree proof leaves all offset k ⊎ Collision m
      → Agree proof leaves all (offset + k) (size - k) ⊎ Collision m
      → Agree proof leaves all offset size ⊎ Collision m
  Agree-join offset size k h (inr c) right = inr c
  Agree-join offset size k h (inl l) (inr c) = inr c
  Agree-join offset size k h (inl l) (inl r) = inl (Agree-cut proof leaves all offset size k h l r)

  recompute_sound :
      (fuel offset size cursor : ℕ) (h : Hash) (cursor' : ℕ)
      → Cover m proof.from_index proof.to_index fuel offset size
      → 0 < size
      → offset + size ≤ length all
      → recompute m fuel offset size proof leaves cursor ≡ ok (h, cursor')
      → h ≡ m.compute_root (slice offset size all)
      → Agree proof leaves all offset size ⊎ Collision m
  recompute_sound fuel offset size cursor h cursor' (skip e c) pos within ran opens =
      inl (λ i p q r s. absurd (omega arith))
  recompute_sound fuel offset size cursor h cursor' (keep e c) pos within ran opens =
      let (short, root) =
        root_of_carried-eq-ok m offset size proof leaves cursor h cursor'
          (sym (recompute-keep m proof leaves fuel offset size cursor e) ∙ ran) in
      let len = length-slice (offset - proof.from_index) size leaves short in
      let len' = length-slice offset size all within in
      elim (compute_root-injective m laws size (slice (offset - proof.from_index) size leaves)
        (slice offset size all) (omega arith) (omega arith) (omega arith) (sym root ∙ opens)) [
          | inl same ↦ inl (Agree-of_slice proof leaves all offset size c.0 same)
          | inr collision ↦ inr collision
        ]
  recompute_sound (suc fuel) offset size cursor h cursor' (cut e c at_k big split l r) pos within
        ran opens =
      let k = m.largest_power_of_2_less_than size in
      let parts = split-pos big split in
      let (a, c1, b, ran_left, ran_right, parent) =
        join-eq-ok m (recompute m fuel offset k proof leaves cursor)
          (recompute m fuel (offset + k) (size - k) proof leaves) h cursor'
          (sym (recompute-cut m proof leaves fuel offset size cursor e at_k) ∙ ran) in
      elim (children-eq m laws a b _ _
        (parent ∙ opens ∙ compute_root-slice m laws offset size all big within)) [
          | inr collision ↦ inr collision
          | inl (same_left, same_right) ↦
              Agree-join offset size k split.below
                (recompute_sound fuel offset k cursor a c1 l parts.0 (omega arith) ran_left
                  same_left)
                (recompute_sound fuel (offset + k) (size - k) c1 b cursor' r (omega arith)
                  (omega arith) ran_right same_right)
        ]

  -- When `verify` accepts a proof against the root of a tree of the declared size, at most 2^64 - 1
  -- leaves, the proof names a non-empty sub-range of the tree and the carried leaves are exactly the
  -- entries of that range in order; otherwise a collision of the node hash is at hand.
  pub verify_sound :
      length all ≡ proof.tree_size
      → length all ≤ u64_max
      → verify m proof leaves (m.compute_root all) ≡ ok true
      → ((proof.from_index < proof.to_index)
          × (proof.to_index ≤ length all)
          × (leaves ≡ slice proof.from_index (proof.to_index - proof.from_index) all))
        ⊎ Collision m
  verify_sound size range accepted =
      let (c, width, fits, count, ran) =
        verify-eq-true m proof leaves (m.compute_root all) accepted in
      elim (recompute_sound proof.tree_size 0 proof.tree_size 0 (m.compute_root all) c
        (cover m laws proof.from_index proof.to_index proof.tree_size 0 proof.tree_size
          (omega arith) (omega arith))
        (omega arith) (omega arith) ran
        (ap m.compute_root (sym (take-all proof.tree_size all (omega arith))))) [
          | inr collision ↦ inr collision
          | inl agree ↦
              inl
                (width, omega arith, range-eq proof leaves all width (omega arith) size count agree)
        ]
