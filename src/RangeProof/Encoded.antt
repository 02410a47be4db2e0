-- ===== src/RangeProof/Encoded.antt =====
-- What `encode` of src/range_proof.rs writes, read again.
use ahl_core.Prelude.{
  ℕ, ◌/◌, ◌≤◌, ◌≡◌, refl, ap, ap₂, ◌∙◌, true, List, [], ◌∷◌, ◌++◌, Bytes, length, take, drop, all,
  min, arith, length-append,
}
use ahl_core.Prelude.Words.{
  is_octet, to_be, from_be, length-to_be, from_be-to_be, all-append, all-to_be,
}
use ahl_core.Merkle.{Hash}
use ahl_core.RangeProof.{u64_max, u32_max, RangeProof}
use ahl_core.RangeProof.Codec.{joined, to_bytes, declares, chunks}
use ahl_core.RangeProof.Frame.{parsed, count_in, IsFramed, declares_iff}
use ahl_core.RangeProof.Slices.{
  is_node, IsWellFormed, layout, take-at, drop-at, length-joined, chunks-joined,
}

module _ (a b c n body : Bytes) (ea : length a ≡ 8) (eb : length b ≡ 8) (ec : length c ≡ 8)
    (en : length n ≡ 4) where
  abbrev whole : Bytes
  whole = layout a b c n body

  from_b : drop 14 whole ≡ b ++ (c ++ (n ++ body))
  from_b = drop-at 8 0 a (b ++ (c ++ (n ++ body))) ea

  from_c : drop 22 whole ≡ c ++ (n ++ body)
  from_c = drop-at 8 8 a (b ++ (c ++ (n ++ body))) ea ∙ drop-at 8 0 b (c ++ (n ++ body)) eb

  from_n : drop 30 whole ≡ n ++ body
  from_n =
      drop-at 8 16 a (b ++ (c ++ (n ++ body))) ea
      ∙ (drop-at 8 8 b (c ++ (n ++ body)) eb ∙ drop-at 8 0 c (n ++ body) ec)

  pub body-layout : drop 34 whole ≡ body
  body-layout =
      drop-at 8 20 a (b ++ (c ++ (n ++ body))) ea
      ∙ (drop-at 8 12 b (c ++ (n ++ body)) eb
          ∙ (drop-at 8 4 c (n ++ body) ec ∙ drop-at 4 0 n body en))

  pub slices-layout :
      (take 8 (drop 6 whole) ≡ a)
      × (take 8 (drop 14 whole) ≡ b)
      × (take 8 (drop 22 whole) ≡ c)
      × (take 4 (drop 30 whole) ≡ n)
  slices-layout = (
    take-at 8 a (b ++ (c ++ (n ++ body))) ea,
    ap (take 8) from_b ∙ take-at 8 b (c ++ (n ++ body)) eb,
    ap (take 8) from_c ∙ take-at 8 c (n ++ body) ec,
    ap (take 4) from_n ∙ take-at 4 n body en,
  )

  pub length-layout : 34 ≤ length whole
  length-layout = omega (
    arith,
    length-append a (b ++ (c ++ (n ++ body))),
    length-append b (c ++ (n ++ body)),
    length-append c (n ++ body),
    length-append n body,
    ea,
    eb,
    ec,
    en,
  )

octets_append :
    (xs ys : Bytes)
    → all is_octet xs ≡ true
    → all is_octet ys ≡ true
    → all is_octet (xs ++ ys) ≡ true
octets_append xs ys p q = all-append xs ys ∙ rw (p, q) refl

all-joined : (nodes : List Hash) → all is_node nodes ≡ true → all is_octet (joined nodes) ≡ true
unfolding joined
all-joined [] h = refl
all-joined (node ∷ nodes) h =
    octets_append node (joined nodes) (ground arith) (all-joined nodes (ground arith))

module _ (proof : RangeProof) (w : IsWellFormed proof) where
  abbrev count : ℕ
  count = min (length proof.nodes) u32_max

  abbrev body : Bytes
  body = joined proof.nodes

  nodes_size : length body / 32 ≡ length proof.nodes
  nodes_size = omega (arith, length-joined proof.nodes w.nodes_fit)

  body_back : drop 34 (to_bytes proof) ≡ body
  unfolding to_bytes
  body_back =
      body-layout (to_be 8 proof.tree_size) (to_be 8 proof.from_index) (to_be 8 proof.to_index)
        (to_be 4 count) body (length-to_be 8 proof.tree_size) (length-to_be 8 proof.from_index)
        (length-to_be 8 proof.to_index) (length-to_be 4 count)

  slices_back :
      (take 8 (drop 6 (to_bytes proof)) ≡ to_be 8 proof.tree_size)
      × (take 8 (drop 14 (to_bytes proof)) ≡ to_be 8 proof.from_index)
      × (take 8 (drop 22 (to_bytes proof)) ≡ to_be 8 proof.to_index)
      × (take 4 (drop 30 (to_bytes proof)) ≡ to_be 4 count)
  unfolding to_bytes
  slices_back =
      slices-layout (to_be 8 proof.tree_size) (to_be 8 proof.from_index) (to_be 8 proof.to_index)
        (to_be 4 count) body (length-to_be 8 proof.tree_size) (length-to_be 8 proof.from_index)
        (length-to_be 8 proof.to_index) (length-to_be 4 count)

  word : (n : ℕ) → n ≤ u64_max → from_be (to_be 8 n) ≡ n
  word n h = from_be-to_be 8 n (omega (arith, h))

  count_back : count_in (to_bytes proof) ≡ count
  count_back =
      let (_, _, _, counted) = slices_back in
      ap from_be counted ∙ from_be-to_be 4 count (omega arith)

  declared_back : declares (count_in (to_bytes proof)) (drop 34 (to_bytes proof)) ≡ true
  declared_back =
      ap₂ declares count_back body_back
      ∙ (declares_iff count body (omega arith)).1
          (omega (arith, w.count_fits, length-joined proof.nodes w.nodes_fit))

  pub to_bytes-IsFramed : IsFramed (to_bytes proof)
  unfolding to_bytes
  to_bytes-IsFramed = record {
    long =
        length-layout (to_be 8 proof.tree_size) (to_be 8 proof.from_index) (to_be 8 proof.to_index)
          (to_be 4 count) body (length-to_be 8 proof.tree_size) (length-to_be 8 proof.from_index)
          (length-to_be 8 proof.to_index) (length-to_be 4 count);
    magic = refl;
    declared = declared_back;
  }

  fields_cong :
      (tree from to : ℕ) (nodes : List Hash)
      → tree ≡ proof.tree_size
      → from ≡ proof.from_index
      → to ≡ proof.to_index
      → nodes ≡ proof.nodes
      → record { tree_size = tree; from_index = from; to_index = to; nodes = nodes } ≡ proof
  fields_cong tree from to nodes p q r s = rw (p, q, r, s) refl

  pub parsed-to_bytes : parsed (to_bytes proof) ≡ proof
  parsed-to_bytes =
      let (tree, from, to, _) = slices_back in
      fields_cong (from_be (take 8 (drop 6 (to_bytes proof))))
        (from_be (take 8 (drop 14 (to_bytes proof)))) (from_be (take 8 (drop 22 (to_bytes proof))))
        (chunks (length (drop 34 (to_bytes proof)) / 32) (drop 34 (to_bytes proof)))
        (ap from_be tree ∙ word proof.tree_size w.tree_size_fits)
        (ap from_be from ∙ word proof.from_index w.from_index_fits)
        (ap from_be to ∙ word proof.to_index w.to_index_fits)
        (ap (λ bytes. chunks (length bytes / 32) bytes) body_back
          ∙ (ap (λ k. chunks k body) nodes_size ∙ chunks-joined proof.nodes w.nodes_fit))

  pub to_bytes_octets : all is_octet (to_bytes proof) ≡ true
  unfolding to_bytes
  to_bytes_octets =
      octets_append (to_be 8 proof.tree_size)
        (to_be 8 proof.from_index ++ (to_be 8 proof.to_index ++ (to_be 4 count ++ body)))
        (all-to_be 8 proof.tree_size)
        (octets_append (to_be 8 proof.from_index)
          (to_be 8 proof.to_index ++ (to_be 4 count ++ body)) (all-to_be 8 proof.from_index)
          (octets_append (to_be 8 proof.to_index) (to_be 4 count ++ body)
            (all-to_be 8 proof.to_index)
            (octets_append (to_be 4 count) body (all-to_be 4 count)
              (all-joined proof.nodes w.nodes_fit))))
