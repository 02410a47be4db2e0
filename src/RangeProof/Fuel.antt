-- ===== src/RangeProof/Fuel.antt =====
-- The errors of `verify` (src/range_proof.rs), and that its recursion never runs out of fuel.
use ahl_core.Prelude.{
  ℕ, zero, suc, ◌+◌, ◌-◌, ◌≤◌, ◌<◌, ◌≡◌, ◌⊎◌, inl, inr, refl, Bool, true, false, not, Option, none,
  some, List, [], ◌∷◌, length, ◌==◌, if◌then◌else◌, arith, str_eq, Str,
}
use ahl_core.Error.{
  AhlError, range_proof, merkle, Result, ok, err, AhlResult, ◌>>=◌, ◌>>◌, ok_or, map_err, reject_if,
}
use ahl_core.Merkle.{Hash, Merkle, IsRfc6962}
use ahl_core.RangeProof.{
  u64_max, sat_add, RangeProof, Span, outside, inside, straddles, classify, check_range,
  checked_sub, next_node, root_of_carried, recompute, cross_check, as_inclusion, verify,
}

-- The errors that `verify` documents.
abbrev pub is_documented : AhlError → Bool
is_documented (range_proof _) = true
is_documented (merkle _) = true
is_documented _ = false

abbrev pub fails_documented {ℓ} : {A : Type ℓ} → AhlResult A → Bool
fails_documented (ok _) = true
fails_documented (err e) = is_documented e

bind_documented {ℓ κ} :
    {A : Type ℓ} {B : Type κ} (r : AhlResult A) (rest : A → AhlResult B)
    → fails_documented r ≡ true
    → ((a : A) → fails_documented (rest a) ≡ true)
    → fails_documented (r >>= rest) ≡ true
bind_documented (ok a) rest h k = k a
bind_documented (err e) rest h k = h

then_documented {κ} :
    {B : Type κ} (r : AhlResult (Unit {0})) (rest : AhlResult B)
    → fails_documented r ≡ true
    → (r ≡ ok tt → fails_documented rest ≡ true)
    → fails_documented (r >> rest) ≡ true
then_documented (ok _) rest h k = k refl
then_documented (err e) rest h k = h

ok_or_documented {ℓ} :
    {A : Type ℓ} (o : Option A) (e : AhlError)
    → is_documented e ≡ true
    → fails_documented (ok_or o e) ≡ true
ok_or_documented none e h = h
ok_or_documented (some a) e h = refl

reject_documented :
    (b : Bool) (e : AhlError) → is_documented e ≡ true → fails_documented (reject_if b e) ≡ true
reject_documented true e h = h
reject_documented false e h = refl

Span-cases : (s : Span) → (s ≡ outside) ⊎ ((s ≡ inside) ⊎ (s ≡ straddles))
Span-cases outside = inl refl
Span-cases inside = inr (inl refl)
Span-cases straddles = inr (inr refl)

-- The answer once the root is recomputed.
last_documented :
    (wrong one_entry : Bool) (r : AhlResult Bool)
    → fails_documented r ≡ true
    → fails_documented (if wrong then ok false else (if one_entry then r else ok true)) ≡ true
last_documented true one_entry r h = refl
last_documented false true r h = h
last_documented false false r h = refl

classify-straddles :
    (offset size from to : ℕ)
    → offset + size ≤ u64_max
    → classify offset size from to ≡ straddles
    → 1 < size
unfolding classify
classify-straddles offset size from to range e = ground arith

module _ (m : Merkle) (laws : IsRfc6962 m) (proof : RangeProof) (leaves : List Hash) where
  next_documented : (cursor : ℕ) → fails_documented (next_node m proof cursor) ≡ true
  unfolding next_node
  next_documented cursor = ground arith

  carried_documented :
      (offset size cursor : ℕ)
      → fails_documented (root_of_carried m offset size proof leaves cursor) ≡ true
  unfolding root_of_carried
  carried_documented offset size cursor = ground arith

  recompute_documented :
      (fuel offset size cursor : ℕ)
      → 0 < size
      → size ≤ fuel
      → offset + size ≤ u64_max
      → fails_documented (recompute m fuel offset size proof leaves cursor) ≡ true
  unfolding recompute
  recompute_documented zero offset size cursor some_size enough range = absurd (omega arith)
  recompute_documented (suc fuel) offset size cursor some_size enough range =
      elim (Span-cases (classify offset size proof.from_index proof.to_index)) [
        | inl e ↦ rw (recompute, e) (next_documented cursor)
        | inr (inl e) ↦ rw (recompute, e) (carried_documented offset size cursor)
        | inr (inr e) ↦
            let k = m.largest_power_of_2_less_than size in
            let cut =
              laws.split size
                (classify-straddles offset size proof.from_index proof.to_index range e) in
            let some_left : 0 < k = omega (arith, cut.half, some_size) in
            let below : k < size = cut.below in
            rw (recompute, e)
              (bind_documented (recompute m fuel offset k proof leaves cursor)
                (λ left.
                  recompute m fuel (sat_add offset k) (size - k) proof leaves left.1 >>= λ right.
                  ok (m.hash_children left.0 right.0, right.1))
                (recompute_documented fuel offset k cursor some_left (omega (arith, below, enough))
                  (omega (arith, below, range)))
                (λ left.
                  bind_documented
                    (recompute m fuel (sat_add offset k) (size - k) proof leaves left.1)
                    (λ right. ok (m.hash_children left.0 right.0, right.1))
                    (recompute_documented fuel (sat_add offset k) (size - k) left.1
                      (omega (arith, below)) (omega (arith, below, enough, some_left))
                      (omega (arith, below, range)))
                    (λ right. refl)))
      ]

  range_documented :
      fails_documented (check_range proof.tree_size proof.from_index proof.to_index) ≡ true
  unfolding check_range
  range_documented = ground arith

  some_tree :
      check_range proof.tree_size proof.from_index proof.to_index ≡ ok tt → 0 < proof.tree_size
  unfolding check_range
  some_tree e = ground arith

  cross_documented :
      (root : Hash) (hs : List Hash) → fails_documented (cross_check m proof hs root) ≡ true
  unfolding cross_check
  cross_documented root [] = refl
  cross_documented root (leaf ∷ hs) =
      by_answer (m.verify_inclusion leaf (as_inclusion m proof) root)
    where
      by_answer :
          (r : Result Str Bool)
          → fails_documented (map_err merkle r >>= λ accepted. ok accepted) ≡ true
      by_answer (ok b) = refl
      by_answer (err e) = refl

  -- Under the split law of RFC 6962, on a proof whose tree size fits 64 bits `verify` answers yes or
  -- no, or stops with one of the two errors that it documents: its recursion never runs out of fuel.
  pub verify-fails_documented :
      proof.tree_size ≤ u64_max
      → (root : Hash) → fails_documented (verify m proof leaves root) ≡ true
  unfolding verify
  verify-fails_documented range root =
      then_documented (check_range proof.tree_size proof.from_index proof.to_index) _
        range_documented
        (λ valid.
          bind_documented (ok_or (checked_sub proof.to_index proof.from_index) _) _
            (ok_or_documented (checked_sub proof.to_index proof.from_index) _ refl)
            (λ width.
              then_documented (reject_if (not (length leaves == width)) _) _
                (reject_documented (not (length leaves == width)) _ refl)
                (λ _.
                  bind_documented (recompute m proof.tree_size 0 proof.tree_size proof leaves 0) _
                    (recompute_documented proof.tree_size 0 proof.tree_size 0 (some_tree valid)
                      (omega arith) (omega (arith, range)))
                    (λ result.
                      then_documented (reject_if (not (result.1 == length proof.nodes)) _) _
                        (reject_documented (not (result.1 == length proof.nodes)) _ refl)
                        (λ _.
                          last_documented (not (str_eq result.0 root)) (width == 1)
                            (cross_check m proof leaves root) (cross_documented root leaves))))))
