-- ===== src/RangeProof/Inclusion.antt =====
-- A one-entry range proof is an inclusion proof: sorted by depth, the nodes that `verify`
-- (range_proof.rs) collects are the audit path of RFC 6962 section 2.1.1, leaf to root.
use mathlib.Core.List.{append_assoc, append-nil, map-append}
use native.Mathlib.Nat.{add-zero}
use ahl_core.Prelude.{
  ℕ, zero, suc, ◌+◌, ◌-◌, ◌^◌, ◌≤◌, ◌<◌, ◌≡◌, ◌⊎◌, refl, sym, ap, ap₂, ◌∙◌, true, false, Bool-cases,
  inl, inr, List, [], ◌∷◌, ◌++◌, map, arith, some, length, length-append, get_elem?, ltb, leb,
  ltb→lt, lt→ltb, le→leb, if◌then◌else◌,
}
use ahl_core.Error.{ok}
use ahl_core.Merkle.{Hash, Merkle}
use ahl_core.Merkle.Roots.{slice, split-pos, split-le-pow}
use ahl_core.RangeProof.{
  u64_max, sat_add, sat_add_u32, sort_by_depth, collect_node, classify, outside, inside, straddles,
}
use ahl_core.RangeProof.Walk.{
  Cover, skip, keep, cut, fold_spans, outside_spans, outside_spans-skip, outside_spans-keep,
  outside_spans-cut,
}
use ahl_core.RangeProof.Depths.{
  Deeper, Deeper-append, Deeper-le, Deeper-sort, insert_by_depth-last, sort_by_depth-last,
}
use ahl_core.RangeProof.Complete.{span_root, get_elem?-append}

-- RFC 6962 section 2.1.1: PATH(i, D[offset .. offset + size]) over hashed leaves, with fuel.
module _ (m : Merkle) (all : List Hash) (i : ℕ) where
  pub audit_path_of : ℕ → ℕ → ℕ → List Hash
  audit_path_of zero offset size = []
  audit_path_of (suc fuel) offset size =
      let k = m.largest_power_of_2_less_than size in
      let left =
        audit_path_of fuel offset k ++ m.compute_root (slice (offset + k) (size - k) all) ∷ [] in
      let right =
        audit_path_of fuel (offset + k) (size - k) ++ m.compute_root (slice offset k all) ∷ [] in
      if leb size 1 then [] else if ltb i (offset + k) then left else right

  abbrev pub audit_path : List Hash
  audit_path = audit_path_of (length all) 0 (length all)

-- The documented behaviour of `atl_core`'s verifier: it accepts the audit path of an entry.
pub record AcceptsAuditPaths (m : Merkle) : Type 0 where
  pub accepts :
      (all : List Hash) (i : ℕ) (leaf : Hash)
      → get_elem? all i ≡ some leaf
      → m.verify_inclusion leaf
          (record { leaf_index = i; tree_size = length all; path = audit_path m all i })
          (m.compute_root all)
        ≡ ok true

gt→leb : (a b : ℕ) → b < a → leb a b ≡ false
gt→leb a b h = ground arith

ge→ltb : (a b : ℕ) → b ≤ a → ltb a b ≡ false
ge→ltb a b h = ground arith

-- The collected nodes: each subtree outside the range with its depth and its root.
module _ (m : Merkle) (all : List Hash) where
  unfoldable pub labelled : List (ℕ × ℕ × ℕ) → List (ℕ × Hash)
  labelled [] = []
  labelled ((o, s, d) ∷ rest) = (d, m.compute_root (slice o s all)) ∷ labelled rest

  labelled-append : (xs ys : List (ℕ × ℕ × ℕ)) → labelled (xs ++ ys) ≡ labelled xs ++ labelled ys
  unfolding labelled
  labelled-append [] ys = refl
  labelled-append ((o, s, d) ∷ xs) ys =
      ap (λ r. (d, m.compute_root (slice o s all)) ∷ r) (labelled-append xs ys)

  collect_node-at :
      (pre post : List Hash) (ordered : List (ℕ × Hash)) (nodes : List Hash) (root : Hash)
      (o s d : ℕ)
      → nodes ≡ pre ++ root ∷ post
      → length pre + 1 ≤ u64_max
      → collect_node m nodes o s d (ordered, length pre)
        ≡ (ordered ++ (d, root) ∷ [], length pre + 1)
  unfolding collect_node
  collect_node-at pre post ordered nodes root o s d e room =
      rw (ap (λ n. get_elem? n (length pre)) e ∙ get_elem?-append pre post root, collect_node)
        (ap (λ c. (ordered ++ (d, root) ∷ [], c)) {x = sat_add (length pre) 1} (omega arith))

  pub collect-eq-labelled :
      (spans : List (ℕ × ℕ × ℕ)) (pre : List Hash) (ordered : List (ℕ × Hash)) (nodes : List Hash)
      → nodes ≡ pre ++ map (span_root m all) spans
      → length nodes ≤ u64_max
      → fold_spans (collect_node m nodes) spans (ordered, length pre)
        ≡ (ordered ++ labelled spans, length pre + length spans)
  unfolding fold_spans labelled span_root collect_node
  collect-eq-labelled [] pre ordered nodes e bound =
      ap₂ (λ a b. (a, b)) (sym (append-nil ordered)) (sym (add-zero (length pre)))
  collect-eq-labelled ((o, s, d) ∷ rest) pre ordered nodes e bound =
      let root = m.compute_root (slice o s all) in
      let at : nodes ≡ pre ++ root ∷ map (span_root m all) rest = e in
      let room : length pre + 1 ≤ u64_max =
        omega (arith, ap length at, length-append pre (root ∷ map (span_root m all) rest)) in
      let longer : length (pre ++ root ∷ []) ≡ length pre + 1 =
        omega (arith, length-append pre (root ∷ [])) in
      let next =
        collect-eq-labelled rest (pre ++ root ∷ []) (ordered ++ (d, root) ∷ []) nodes
          (at ∙ sym (append_assoc pre (root ∷ []) (map (span_root m all) rest))) bound in
      ap (fold_spans (collect_node m nodes) rest) (
        collect_node-at pre (map (span_root m all) rest) ordered nodes root o s d at room
        ∙ ap (λ c. (ordered ++ (d, root) ∷ [], c)) (sym longer))
      ∙ next
      ∙ ap₂ (λ a b. (a, b)) (append_assoc ordered ((d, root) ∷ []) (labelled rest))
          (omega (arith, longer))

-- A subtree that does not meet the range is outside.
outside_of_disjoint :
    {m : Merkle} {from to fuel o s : ℕ}
    → Cover m from to fuel o s
    → 0 < s
    → (to ≤ o) ⊎ (o + s ≤ from)
    → from < to
    → classify o s from to ≡ outside
outside_of_disjoint (skip e c) pos away width = e
outside_of_disjoint (keep e c) pos away width = absurd (omega arith)
outside_of_disjoint (cut e c at_k big split l r) pos away width = absurd (omega arith)

module _ (m : Merkle) (all : List Hash) (i : ℕ) where
  abbrev spans : ℕ → ℕ → ℕ → ℕ → List (ℕ × Hash)
  spans fuel o s d = labelled m all (outside_spans m i (i + 1) fuel o s d)

  -- The spans of a subtree that holds entry i, sorted, are its audit path, and all are deeper.
  pub record IsAudited (fuel o s d : ℕ) : Type 0 where
    pub path : map (λ x. x.1) (sort_by_depth (spans fuel o s d)) ≡ audit_path_of m all i fuel o s
    pub deeper : Deeper d (spans fuel o s d)

  last_of_path :
      (xs : List (ℕ × Hash)) (x : ℕ × Hash) (path : List Hash)
      → Deeper x.0 xs
      → map (λ x. x.1) (sort_by_depth xs) ≡ path
      → map (λ x. x.1) (sort_by_depth (xs ++ x ∷ [])) ≡ path ++ x.1 ∷ []
  last_of_path xs x path deep e =
      rw (sort_by_depth-last xs x deep) (rw map-append (ap (λ p. p ++ x.1 ∷ []) e))

  first_of_path :
      (xs : List (ℕ × Hash)) (x : ℕ × Hash) (path : List Hash)
      → Deeper x.0 xs
      → map (λ x. x.1) (sort_by_depth xs) ≡ path
      → map (λ x. x.1) (sort_by_depth (x ∷ xs)) ≡ path ++ x.1 ∷ []
  unfolding sort_by_depth
  first_of_path xs x path deep e =
      rw (insert_by_depth-last x (sort_by_depth xs) (Deeper-sort x.0 xs deep))
        (rw map-append (ap (λ p. p ++ x.1 ∷ []) e))

  spans-cut :
      (fuel o s d : ℕ)
      → classify o s i (i + 1) ≡ straddles
      → sat_add o (m.largest_power_of_2_less_than s) ≡ o + m.largest_power_of_2_less_than s
      → d < 64
      → spans (suc fuel) o s d
        ≡ spans fuel o (m.largest_power_of_2_less_than s) (d + 1)
          ++ spans fuel
              (o + m.largest_power_of_2_less_than s)
              (s - m.largest_power_of_2_less_than s)
              (d + 1)
  spans-cut fuel o s d e at_k depth =
      let next : sat_add_u32 d 1 ≡ d + 1 = omega arith in
      ap (labelled m all) (outside_spans-cut m i (i + 1) fuel o s d e at_k)
      ∙ labelled-append m all _ _
      ∙ ap
          (λ n.
            spans fuel o (m.largest_power_of_2_less_than s) n
            ++ spans fuel (o + m.largest_power_of_2_less_than s)
                (s - m.largest_power_of_2_less_than s) n)
          next

  spans-skip :
      (fuel o s d : ℕ)
      → classify o s i (i + 1) ≡ outside
      → spans fuel o s d ≡ (d, m.compute_root (slice o s all)) ∷ []
  unfolding labelled
  spans-skip fuel o s d e = ap (labelled m all) (outside_spans-skip m i (i + 1) fuel o s d e)

  audit_path-left :
      (fuel o s : ℕ)
      → 1 < s
      → i < o + m.largest_power_of_2_less_than s
      → audit_path_of m all i (suc fuel) o s
        ≡ audit_path_of m all i fuel o (m.largest_power_of_2_less_than s)
          ++ m.compute_root (
              slice
                (o + m.largest_power_of_2_less_than s)
                (s - m.largest_power_of_2_less_than s)
                all)
            ∷ []
  unfolding audit_path_of
  audit_path-left fuel o s big here = rw (gt→leb s 1 big, lt→ltb _ _ here)

  audit_path-right :
      (fuel o s : ℕ)
      → 1 < s
      → o + m.largest_power_of_2_less_than s ≤ i
      → audit_path_of m all i (suc fuel) o s
        ≡ audit_path_of m all i fuel
            (o + m.largest_power_of_2_less_than s)
            (s - m.largest_power_of_2_less_than s)
          ++ m.compute_root (slice o (m.largest_power_of_2_less_than s) all) ∷ []
  unfolding audit_path_of
  audit_path-right fuel o s big here = rw (gt→leb s 1 big, ge→ltb _ _ here)

  cut_left :
      (fuel o s d : ℕ)
      → spans (suc fuel) o s d
        ≡ spans fuel o (m.largest_power_of_2_less_than s) (d + 1)
          ++ (
            d + 1,
            m.compute_root (
                slice
                  (o + m.largest_power_of_2_less_than s)
                  (s - m.largest_power_of_2_less_than s)
                  all),
          )
            ∷ []
      → 1 < s
      → i < o + m.largest_power_of_2_less_than s
      → IsAudited fuel o (m.largest_power_of_2_less_than s) (d + 1)
      → IsAudited (suc fuel) o s d
  cut_left fuel o s d parts big here ih = record {
    path =
        rw parts (last_of_path _ _ _ ih.deeper ih.path ∙ sym (audit_path-left fuel o s big here));
    deeper =
        rw parts
          (Deeper-append d _ _ (Deeper-le (d + 1) d _ (omega arith) ih.deeper) (omega arith, tt));
  }

  cut_right :
      (fuel o s d : ℕ)
      → spans (suc fuel) o s d
        ≡ (d + 1, m.compute_root (slice o (m.largest_power_of_2_less_than s) all))
          ∷ spans fuel
              (o + m.largest_power_of_2_less_than s)
              (s - m.largest_power_of_2_less_than s)
              (d + 1)
      → 1 < s
      → o + m.largest_power_of_2_less_than s ≤ i
      → IsAudited fuel
          (o + m.largest_power_of_2_less_than s)
          (s - m.largest_power_of_2_less_than s)
          (d + 1)
      → IsAudited (suc fuel) o s d
  cut_right fuel o s d parts big here ih = record {
    path =
        rw parts (first_of_path _ _ _ ih.deeper ih.path ∙ sym (audit_path-right fuel o s big here));
    deeper = rw parts (omega arith, Deeper-le (d + 1) d _ (omega arith) ih.deeper);
  }

  audit_path-leaf : (fuel o s : ℕ) → s ≤ 1 → audit_path_of m all i fuel o s ≡ []
  unfolding audit_path_of
  audit_path-leaf zero o s h = refl
  audit_path-leaf (suc fuel) o s h = rw (le→leb s 1 h)

  IsAudited-leaf : (fuel o s d : ℕ) → classify o s i (i + 1) ≡ inside → s ≤ 1 → IsAudited fuel o s d
  unfolding labelled sort_by_depth
  IsAudited-leaf fuel o s d e h =
      let none_left : spans fuel o s d ≡ [] =
        ap (labelled m all) (outside_spans-keep m i (i + 1) fuel o s d e) in
      record { path = rw none_left (sym (audit_path-leaf fuel o s h)); deeper = rw none_left tt }

  -- By induction on the decomposition, for a tree of at most 2^64 leaves.
  pub audited :
      (r fuel o s d : ℕ)
      → Cover m i (i + 1) fuel o s
      → o ≤ i
      → i < o + s
      → s ≤ 2 ^ r
      → d + r ≤ 64
      → IsAudited fuel o s d
  audited r fuel o s d (skip e c) low high size depth = absurd (omega arith)
  audited r zero o s d (keep e c) low high size depth = IsAudited-leaf zero o s d e (omega arith)
  audited r (suc fuel) o s d (keep e c) low high size depth =
      IsAudited-leaf (suc fuel) o s d e (omega arith)
  audited zero (suc fuel) o s d (cut e c at_k big split l rr) low high size depth =
      absurd (omega arith)
  audited (suc r) (suc fuel) o s d (cut e c at_k big split l rr) low high size depth =
      let k = m.largest_power_of_2_less_than s in
      let parts = split-pos big split in
      let small = split-le-pow r split size in
      let joined = spans-cut fuel o s d e at_k (omega arith) in
      elim (Bool-cases (ltb i (o + k))) [
        | inl here ↦
            cut_left fuel o s d
              (joined
                ∙ ap (λ x. spans fuel o k (d + 1) ++ x)
                    (spans-skip fuel (o + k) (s - k) (d + 1)
                      (outside_of_disjoint rr (omega arith) (inl (ground arith)) (omega arith))))
              big (ltb→lt _ _ here)
              (audited r fuel o k (d + 1) l low (ltb→lt _ _ here) small (omega arith))
        | inr there ↦
            let past : o + k ≤ i = ground arith in
            cut_right fuel o s d
              (joined
                ∙ ap (λ x. x ++ spans fuel (o + k) (s - k) (d + 1))
                    (spans-skip fuel o k (d + 1)
                      (outside_of_disjoint l (omega arith) (inr past) (omega arith))))
              big past
              (audited r fuel (o + k) (s - k) (d + 1) rr past (omega arith) (omega arith)
                (omega arith))
      ]
