-- ===== src/Commitment/Injective.antt =====
-- Commitments of src/lib.rs bind the dataset, the descriptor digest and the canonical bytes.
use ahl_core.Prelude.{
  append_parts, ◌≡◌, ◌≢◌, ◌⊎◌, inl, inr, refl, sym, ap, ◌∙◌, true, false, List, [], ◌∷◌, ◌++◌,
  Bytes, Str, str_eq, str_eq→eq, str_eq_refl, length, all, arith, Bool-cases, leb,
}
use ahl_core.Error.{ok, then-eq-ok, bind-eq-ok, ok-injective}
use ahl_core.Merkle.{Hash}
use ahl_core.Descriptor.{validate_dataset_id, within}
use ahl_core.Descriptor.Identifiers.{IsDatasetId, validate_dataset_id_iff}
use ahl_core.Commitment.{commitment_input, sha256_hex, commit_plain}

cons_parts {ℓ} :
    {A : Type ℓ} (a b : A) (as' bs : List A)
    → Path (List A) (a ∷ as') (b ∷ bs)
    → (a ≡ b) × (as' ≡ bs)
cons_parts a b as' bs e = (cc, cc)

-- No separator stands in an identifier, so the first one ends it.
until_separator :
    (xs ys r s : Bytes)
    → all (λ b. leb 0x21 b) xs ≡ true
    → all (λ b. leb 0x21 b) ys ≡ true
    → xs ++ 0x1F ∷ r ≡ ys ++ 0x1F ∷ s
    → (xs ≡ ys) × (r ≡ s)
until_separator [] [] r s p q e = (refl, (cons_parts 0x1F 0x1F r s e).1)
until_separator [] (y ∷ ys) r s p q e =
    let (b, _) = cons_parts 0x1F y r (ys ++ 0x1F ∷ s) e in absurd (ground (arith, b))
until_separator (x ∷ xs) [] r s p q e =
    let (b, _) = cons_parts x 0x1F (xs ++ 0x1F ∷ r) s e in absurd (ground (arith, b))
until_separator (x ∷ xs) (y ∷ ys) r s p q e =
    let (b, rest) = cons_parts x y (xs ++ 0x1F ∷ r) (ys ++ 0x1F ∷ s) e in
    let (same, tail) = until_separator xs ys r s (ground arith) (ground arith) rest in
    (rw (b, same) refl, tail)

above : (id : Str) → IsDatasetId id → all (λ b. leb 0x21 b) id ≡ true
above id (_, _, printable) = weaken id printable
  where
    weaken : (s : Str) → all (within 0x21 0x7E) s ≡ true → all (λ b. leb 0x21 b) s ≡ true
    weaken [] e = refl
    weaken (b ∷ s) e = let rest = weaken s (ground arith) in ground arith

-- A preimage is accepted with a valid identifier, and its parts stand in it in order.
input-eq-ok :
    (dataset : Str) (ddig canonical preimage : Bytes)
    → commitment_input dataset ddig canonical ≡ ok preimage
    → IsDatasetId dataset × (dataset ++ 0x1F ∷ (ddig ++ 0x1F ∷ canonical) ≡ preimage)
unfolding commitment_input
input-eq-ok dataset ddig canonical preimage e =
    let (valid, rest) =
      then-eq-ok (validate_dataset_id dataset) (ok (dataset ++ 0x1F ∷ (ddig ++ 0x1F ∷ canonical)))
        e in
    (
      (validate_dataset_id_iff dataset).0.0 valid,
      ok-injective (dataset ++ 0x1F ∷ (ddig ++ 0x1F ∷ canonical)) preimage rest,
    )

-- Two records with one preimage have the same dataset, descriptor digest and canonical bytes.
pub commitment_input_injective :
    (dataset dataset' : Str) (ddig ddig' canonical canonical' preimage : Bytes)
    → length ddig ≡ 32
    → length ddig' ≡ 32
    → commitment_input dataset ddig canonical ≡ ok preimage
    → commitment_input dataset' ddig' canonical' ≡ ok preimage
    → (dataset ≡ dataset') × (ddig ≡ ddig') × (canonical ≡ canonical')
commitment_input_injective dataset dataset' ddig ddig' canonical canonical' preimage h h' e e' =
    let (valid, parts) = input-eq-ok dataset ddig canonical preimage e in
    let (valid', parts') = input-eq-ok dataset' ddig' canonical' preimage e' in
    let (same_dataset, rest) =
      until_separator dataset dataset' (ddig ++ 0x1F ∷ canonical) (ddig' ++ 0x1F ∷ canonical')
        (above dataset valid) (above dataset' valid') (parts ∙ sym parts') in
    let (same_ddig, last) =
      append_parts ddig ddig' (0x1F ∷ canonical) (0x1F ∷ canonical') (h ∙ sym h') rest in
    (same_dataset, same_ddig, (cons_parts 0x1F 0x1F canonical canonical' last).1)

module _ (sha256 : Bytes → Hash) (hex : Bytes → Str) where
  -- Two different preimages that render to one digest: a collision of SHA-256, or of its rendering.
  pub record DigestCollision : Type 0 where
    pub first : Bytes
    pub second : Bytes
    pub same : sha256_hex sha256 hex first ≡ sha256_hex sha256 hex second
    pub differ : first ≢ second

  preimage_of :
      (dataset : Str) (ddig canonical : Bytes) (commitment : Str)
      → commit_plain sha256 hex dataset ddig canonical ≡ ok commitment
      → (preimage : Bytes) × (commitment_input dataset ddig canonical ≡ ok preimage)
        × (sha256_hex sha256 hex preimage ≡ commitment)
  unfolding commit_plain
  preimage_of dataset ddig canonical commitment e =
      let (preimage, e1, e2) =
        bind-eq-ok (λ input. ok (sha256_hex sha256 hex input))
          (commitment_input dataset ddig canonical) e in
      (preimage, e1, ok-injective (sha256_hex sha256 hex preimage) commitment e2)

  -- A `plain` commitment binds what it commits: two records that `commit_plain` gives one commitment,
  -- under descriptor digests of 32 bytes, have the same dataset, the same descriptor digest and the
  -- same canonical bytes, or a collision of the digest is at hand.
  pub commit_plain_binds :
      (dataset dataset' : Str) (ddig ddig' canonical canonical' : Bytes) (commitment : Str)
      → length ddig ≡ 32
      → length ddig' ≡ 32
      → commit_plain sha256 hex dataset ddig canonical ≡ ok commitment
      → commit_plain sha256 hex dataset' ddig' canonical' ≡ ok commitment
      → ((dataset ≡ dataset') × (ddig ≡ ddig') × (canonical ≡ canonical')) ⊎ DigestCollision
  commit_plain_binds dataset dataset' ddig ddig' canonical canonical' commitment h h' e e' =
      let (x, made, rendered) = preimage_of dataset ddig canonical commitment e in
      let (y, made', rendered') = preimage_of dataset' ddig' canonical' commitment e' in
      elim (Bool-cases (str_eq x y)) [
        | inl same ↦ inl (
            commitment_input_injective dataset dataset' ddig ddig' canonical canonical' x h h' made
              (made' ∙ ap ok (sym (str_eq→eq x y same))))
        | inr other ↦ inr (record {
          first = x;
          second = y;
          same = rendered ∙ sym rendered';
          differ = λ eq. different (sym other ∙ (ap (str_eq x) (sym eq) ∙ str_eq_refl x));
        })
      ]
    where
      different : false ≡ true → ⊥
      different p = cc
