-- ===== src/RangeProof/Decoded.antt =====
-- What `decode` of src/range_proof.rs reads from a framed text, encoded again.
use ahl_core.Prelude.{
  ℕ, ◌+◌, ◌*◌, ◌/◌, ◌≤◌, ◌^◌, ◌<◌, ◌≡◌, refl, sym, ap, ◌∙◌, true, List, ◌++◌, Bytes, length, take,
  drop, all, min, arith, take-append-drop, length-take, length-drop,
}
use ahl_core.Prelude.Words.{is_octet, to_be, from_be, to_be-from_be, from_be-lt}
use ahl_core.Merkle.{Hash}
use ahl_core.RangeProof.{u32_max}
use ahl_core.RangeProof.Codec.{range_proof_magic, joined, to_bytes, chunks}
use ahl_core.RangeProof.Frame.{parsed, count_in, IsFramed, declares_iff}
use ahl_core.RangeProof.Slices.{
  IsWellFormed, layout, split-at, all-take, all-drop, length-chunks, joined-chunks, chunks-nodes,
}

layout_cong :
    (a a' b b' c c' n n' body body' : Bytes)
    → a ≡ a'
    → b ≡ b'
    → c ≡ c'
    → n ≡ n'
    → body ≡ body'
    → layout a b c n body ≡ layout a' b' c' n' body'
layout_cong a a' b b' c c' n n' body body' p q r s t = rw (p, q, r, s, t) refl

module _ (bytes : Bytes) (f : IsFramed bytes) (octets : all is_octet bytes ≡ true) where
  abbrev slice_at : ℕ → ℕ → Bytes
  slice_at at width = take width (drop at bytes)

  slice_octets : (at width : ℕ) → all is_octet (slice_at at width) ≡ true
  slice_octets at width = all-take width (drop at bytes) (all-drop at bytes octets)

  slice_size : (at width : ℕ) → at + width ≤ 34 → length (slice_at at width) ≡ width
  slice_size at width h =
      length-take width (drop at bytes) ∙ omega (arith, h, f.long, length-drop at bytes)

  slice_back :
      (at width : ℕ)
      → at + width ≤ 34
      → to_be width (from_be (slice_at at width)) ≡ slice_at at width
  slice_back at width h =
      to_be-from_be width (slice_at at width) (slice_size at width h) (slice_octets at width)

  slice_small : (at width : ℕ) → at + width ≤ 34 → from_be (slice_at at width) < 256 ^ width
  slice_small at width h =
      from_be-lt width (slice_at at width) (slice_size at width h) (slice_octets at width)

  body_length : count_in bytes * 32 ≡ length (drop 34 bytes)
  body_length =
      (declares_iff (count_in bytes) (drop 34 bytes) (slice_small 30 4 (omega arith))).0 f.declared

  abbrev read_nodes : List Hash
  read_nodes = chunks (length (drop 34 bytes) / 32) (drop 34 bytes)

  count_back : min (length read_nodes) u32_max ≡ count_in bytes
  count_back =
      let size = length-chunks (length (drop 34 bytes) / 32) (drop 34 bytes) in
      omega (arith, size, body_length, slice_small 30 4 (omega arith))

  nodes_exact : length (drop 34 bytes) ≡ length (drop 34 bytes) / 32 * 32
  nodes_exact = omega (arith, body_length)

  whole :
      bytes ≡ layout (slice_at 6 8) (slice_at 14 8) (slice_at 22 8) (slice_at 30 4) (drop 34 bytes)
  whole =
      sym (take-append-drop 6 bytes)
      ∙ rw (f.magic) (
          ap (λ r. range_proof_magic ++ r)
            (split-at 6 8 bytes
              ∙ ap (λ r. slice_at 6 8 ++ r)
                  (split-at 14 8 bytes
                    ∙ ap (λ r. slice_at 14 8 ++ r)
                        (split-at 22 8 bytes
                          ∙ ap (λ r. slice_at 22 8 ++ r) (split-at 30 4 bytes)))))

  -- The bytes of a framed text are those of the fields read from it.
  pub to_bytes-parsed : to_bytes (parsed bytes) ≡ bytes
  unfolding to_bytes
  to_bytes-parsed =
      layout_cong (to_be 8 (from_be (slice_at 6 8))) (slice_at 6 8)
        (to_be 8 (from_be (slice_at 14 8))) (slice_at 14 8) (to_be 8 (from_be (slice_at 22 8)))
        (slice_at 22 8) (to_be 4 (min (length read_nodes) u32_max)) (slice_at 30 4)
        (joined read_nodes) (drop 34 bytes) (slice_back 6 8 (omega arith))
        (slice_back 14 8 (omega arith)) (slice_back 22 8 (omega arith))
        (ap (to_be 4) count_back ∙ slice_back 30 4 (omega arith))
        (joined-chunks (length (drop 34 bytes) / 32) (drop 34 bytes) nodes_exact)
      ∙ sym whole

  pub parsed-IsWellFormed : IsWellFormed (parsed bytes)
  parsed-IsWellFormed = record {
    tree_size_fits = omega (arith, slice_small 6 8 (omega arith));
    from_index_fits = omega (arith, slice_small 14 8 (omega arith));
    to_index_fits = omega (arith, slice_small 22 8 (omega arith));
    count_fits = omega (
      arith,
      length-chunks (length (drop 34 bytes) / 32) (drop 34 bytes),
      body_length,
      slice_small 30 4 (omega arith),
    );
    nodes_fit =
        chunks-nodes (length (drop 34 bytes) / 32) (drop 34 bytes) nodes_exact
          (all-drop 34 bytes octets);
  }
