-- ===== src/RangeProof/Walk.antt =====
-- The decomposition that `walk_outside` and `recompute` (range_proof.rs) walk: one derivation for
-- both, with the arithmetic of each cut, so that what follows is induction on it.
use ahl_core.Prelude.{
  ℕ, zero, suc, ◌+◌, ◌-◌, ◌≤◌, ◌<◌, ◌≡◌, ◌⊎◌, inl, inr, refl, List, [], ◌∷◌, ◌++◌, arith, leb,
  Bool-cases, ◌&&◌, ◌||◌,
}
use ahl_core.Error.{AhlResult, ok, ◌>>=◌}
use ahl_core.Merkle.{Hash, Merkle, IsSplit, IsRfc6962}
use ahl_core.Merkle.Roots.{split-pos}
use ahl_core.RangeProof.{
  u64_max, sat_add, sat_add_u32, RangeProof, Span, outside, inside, straddles, classify,
  walk_outside, next_node, root_of_carried, recompute,
}

-- What each class says of a subtree that a u64 can address.
abbrev pub Class : ℕ → ℕ → ℕ → ℕ → Span → Type 0
Class offset size from to outside = (offset + size ≤ from) ⊎ (to ≤ offset)
Class offset size from to inside = (from ≤ offset) × (offset + size ≤ to)
Class offset size from to straddles =
    (from < offset + size) × (offset < to) × ((offset < from) ⊎ (to < offset + size))

pub classify-Class :
    (offset size from to : ℕ)
    → offset + size ≤ u64_max
    → Class offset size from to (classify offset size from to)
unfolding classify
classify-Class offset size from to h =
    elim (Bool-cases (leb (sat_add offset size) from || leb to offset)) [
      | inl out ↦ rw out (ground arith)
      | inr meets ↦ elim (Bool-cases (leb from offset && leb (sat_add offset size) to)) [
        | inl in_range ↦ rw (meets, in_range) (ground arith)
        | inr cut ↦ rw (meets, cut) (ground arith)
      ]
    ]

-- The subtrees that the recursion visits, for a given fuel.
pub data Cover (m : Merkle) (from to : ℕ) : ℕ → ℕ → ℕ → Type 0 where
  skip :
      {fuel offset size : ℕ}
      → classify offset size from to ≡ outside
      → Class offset size from to outside
      → Cover m from to fuel offset size
  keep :
      {fuel offset size : ℕ}
      → classify offset size from to ≡ inside
      → Class offset size from to inside
      → Cover m from to fuel offset size
  cut :
      {fuel offset size : ℕ}
      → classify offset size from to ≡ straddles
      → Class offset size from to straddles
      → sat_add offset (m.largest_power_of_2_less_than size)
        ≡ offset + m.largest_power_of_2_less_than size
      → 1 < size
      → IsSplit size (m.largest_power_of_2_less_than size)
      → Cover m from to fuel offset (m.largest_power_of_2_less_than size)
      → Cover m from to fuel
          (offset + m.largest_power_of_2_less_than size)
          (size - m.largest_power_of_2_less_than size)
      → Cover m from to (suc fuel) offset size

module _ (m : Merkle) (laws : IsRfc6962 m) (from to : ℕ) where
  -- One cut, given the subtrees below it.
  Cover-cut :
      (fuel offset size : ℕ)
      → size ≤ suc fuel
      → offset + size ≤ u64_max
      → ((o s : ℕ) → s ≤ fuel → o + s ≤ u64_max → Cover m from to fuel o s)
      → classify offset size from to ≡ straddles
      → Class offset size from to straddles
      → Cover m from to (suc fuel) offset size
  Cover-cut fuel offset size h range below e c =
      let big : 1 < size = omega arith in
      let s = laws.split size big in
      let bounds = split-pos big s in
      cut e c (omega arith) big s
        (below offset (m.largest_power_of_2_less_than size) (omega arith) (omega arith))
        (below (offset + m.largest_power_of_2_less_than size)
          (size - m.largest_power_of_2_less_than size) (omega arith) (omega arith))

  -- Fuel equal to the size is enough.
  pub cover :
      (fuel offset size : ℕ)
      → size ≤ fuel
      → offset + size ≤ u64_max
      → Cover m from to fuel offset size
  cover zero offset size h range =
      by_class (classify offset size from to) refl (classify-Class offset size from to range)
    where
      by_class :
          (s : Span)
          → classify offset size from to ≡ s
          → Class offset size from to s
          → Cover m from to zero offset size
      by_class outside e c = skip e c
      by_class inside e c = keep e c
      by_class straddles e c = absurd (omega arith)
  cover (suc fuel) offset size h range =
      by_class (classify offset size from to) refl (classify-Class offset size from to range)
        (cover fuel)
    where
      by_class :
          (s : Span)
          → classify offset size from to ≡ s
          → Class offset size from to s
          → ((o s : ℕ) → s ≤ fuel → o + s ≤ u64_max → Cover m from to fuel o s)
          → Cover m from to (suc fuel) offset size
      by_class outside e c below = skip e c
      by_class inside e c below = keep e c
      by_class straddles e c below = Cover-cut fuel offset size h range below e c

-- The visitor applied to a list of subtrees, from left to right.
unfoldable pub fold_spans : {S : Type 0} → (ℕ → ℕ → ℕ → S → S) → List (ℕ × ℕ × ℕ) → S → S
fold_spans visit [] s = s
fold_spans visit ((o, z, d) ∷ rest) s = fold_spans visit rest (visit o z d s)

pub fold_spans-append :
    {S : Type 0} (visit : ℕ → ℕ → ℕ → S → S) (xs ys : List (ℕ × ℕ × ℕ)) (s : S)
    → fold_spans visit (xs ++ ys) s ≡ fold_spans visit ys (fold_spans visit xs s)
unfolding fold_spans
fold_spans-append visit [] ys s = refl
fold_spans-append visit ((o, z, d) ∷ xs) ys s = fold_spans-append visit xs ys (visit o z d s)

module _ (m : Merkle) (from to : ℕ) where
  -- The subtrees outside the range, with their depths, in the order of the walk.
  pub outside_spans : ℕ → ℕ → ℕ → ℕ → List (ℕ × ℕ × ℕ)
  outside_spans zero offset size depth = elim (classify offset size from to) [
    | outside ↦ (offset, size, depth) ∷ []
    | _ ↦ []
  ]
  outside_spans (suc fuel) offset size depth = elim (classify offset size from to) [
    | outside ↦ (offset, size, depth) ∷ []
    | inside ↦ []
    | straddles ↦
        let k = m.largest_power_of_2_less_than size in
        outside_spans fuel offset k (sat_add_u32 depth 1)
        ++ outside_spans fuel (sat_add offset k) (size - k) (sat_add_u32 depth 1)
  ]

  -- The walk visits exactly these subtrees, in this order.
  pub walk_outside-eq-fold :
      {S : Type 0} (fuel offset size depth : ℕ) (visit : ℕ → ℕ → ℕ → S → S) (s : S)
      → Cover m from to fuel offset size
      → walk_outside m fuel offset size from to depth visit s
        ≡ fold_spans visit (outside_spans fuel offset size depth) s
  unfolding walk_outside outside_spans fold_spans
  walk_outside-eq-fold zero offset size depth visit s (skip e c) =
      rw (e, walk_outside, outside_spans, fold_spans)
  walk_outside-eq-fold (suc fuel) offset size depth visit s (skip e c) =
      rw (e, walk_outside, outside_spans, fold_spans)
  walk_outside-eq-fold zero offset size depth visit s (keep e c) =
      rw (e, walk_outside, outside_spans, fold_spans)
  walk_outside-eq-fold (suc fuel) offset size depth visit s (keep e c) =
      rw (e, walk_outside, outside_spans, fold_spans)
  walk_outside-eq-fold (suc fuel) offset size depth visit s (cut e c at_k big split l r) =
      rw (e, walk_outside, outside_spans)
        (rw (fold_spans-append, at_k)
          (rw
            (walk_outside-eq-fold fuel offset (m.largest_power_of_2_less_than size)
              (sat_add_u32 depth 1) visit s l)
            (walk_outside-eq-fold fuel (offset + m.largest_power_of_2_less_than size)
              (size - m.largest_power_of_2_less_than size) (sat_add_u32 depth 1) visit _ r)))

  pub outside_spans-skip :
      (fuel offset size depth : ℕ)
      → classify offset size from to ≡ outside
      → outside_spans fuel offset size depth ≡ (offset, size, depth) ∷ []
  unfolding outside_spans
  outside_spans-skip zero offset size depth e = rw (e, outside_spans)
  outside_spans-skip (suc fuel) offset size depth e = rw (e, outside_spans)

  pub outside_spans-keep :
      (fuel offset size depth : ℕ)
      → classify offset size from to ≡ inside
      → outside_spans fuel offset size depth ≡ []
  unfolding outside_spans
  outside_spans-keep zero offset size depth e = rw (e, outside_spans)
  outside_spans-keep (suc fuel) offset size depth e = rw (e, outside_spans)

  pub outside_spans-cut :
      (fuel offset size depth : ℕ)
      → classify offset size from to ≡ straddles
      → sat_add offset (m.largest_power_of_2_less_than size)
        ≡ offset + m.largest_power_of_2_less_than size
      → outside_spans (suc fuel) offset size depth
        ≡ outside_spans fuel offset (m.largest_power_of_2_less_than size) (sat_add_u32 depth 1)
          ++ outside_spans fuel
              (offset + m.largest_power_of_2_less_than size)
              (size - m.largest_power_of_2_less_than size)
              (sat_add_u32 depth 1)
  unfolding outside_spans
  outside_spans-cut fuel offset size depth e at_k = rw (e, outside_spans) (rw at_k)

-- The two halves of a cut joined.
abbrev pub join_right : Merkle → Hash → AhlResult (Hash × ℕ) → AhlResult (Hash × ℕ)
join_right m left right = right >>= λ r. ok (m.hash_children left r.0, r.1)

abbrev pub join_roots :
    Merkle → AhlResult (Hash × ℕ) → (ℕ → AhlResult (Hash × ℕ)) → AhlResult (Hash × ℕ)
join_roots m left right = left >>= λ l. join_right m l.0 (right l.1)

module _ (m : Merkle) (proof : RangeProof) (leaf_hashes : List Hash) where
  pub recompute-skip :
      (fuel offset size cursor : ℕ)
      → classify offset size proof.from_index proof.to_index ≡ outside
      → recompute m fuel offset size proof leaf_hashes cursor ≡ next_node m proof cursor
  unfolding recompute
  recompute-skip zero offset size cursor e = rw (e, recompute)
  recompute-skip (suc fuel) offset size cursor e = rw (e, recompute)

  pub recompute-keep :
      (fuel offset size cursor : ℕ)
      → classify offset size proof.from_index proof.to_index ≡ inside
      → recompute m fuel offset size proof leaf_hashes cursor
        ≡ root_of_carried m offset size proof leaf_hashes cursor
  unfolding recompute
  recompute-keep zero offset size cursor e = rw (e, recompute)
  recompute-keep (suc fuel) offset size cursor e = rw (e, recompute)

  pub recompute-cut :
      (fuel offset size cursor : ℕ)
      → classify offset size proof.from_index proof.to_index ≡ straddles
      → sat_add offset (m.largest_power_of_2_less_than size)
        ≡ offset + m.largest_power_of_2_less_than size
      → recompute m (suc fuel) offset size proof leaf_hashes cursor
        ≡ join_roots m
            (recompute m fuel offset (m.largest_power_of_2_less_than size) proof leaf_hashes cursor)
            (recompute m fuel
              (offset + m.largest_power_of_2_less_than size)
              (size - m.largest_power_of_2_less_than size)
              proof
              leaf_hashes)
  unfolding recompute
  recompute-cut fuel offset size cursor e at_k = rw (e, recompute) (simp at_k)
