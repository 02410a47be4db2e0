-- ===== src/RangeProof/Entries.antt =====
-- `verify_over_leaves` (src/range_proof.rs) against the entries of a log.
use ahl_core.Prelude.{
  ℕ, zero, suc, ◌-◌, ◌≤◌, ◌<◌, ◌≡◌, ◌≢◌, ◌⊎◌, inl, inr, refl, sym, ap, ap₂, ◌∙◌, true, false, List,
  [], ◌∷◌, map, Bytes, Str, str_eq, str_eq→eq, str_eq_refl, Bool-cases, length, length-map, take,
  drop,
}
use ahl_core.Error.{ok}
use ahl_core.Merkle.{Hash, Merkle, IsRfc6962, Collision}
use ahl_core.Merkle.Roots.{slice}
use ahl_core.Tree.{leaf_hash, tree_root}
use ahl_core.RangeProof.{u64_max, RangeProof}
use ahl_core.RangeProof.Codec.{verify_over_leaves}
use ahl_core.RangeProof.Sound.{verify_sound}

map-take {ℓ κ} :
    {A : Type ℓ} {B : Type κ} (f : A → B) (n : ℕ) (xs : List A)
    → take n (map f xs) ≡ map f (take n xs)
map-take f zero xs = refl
map-take f (suc n) [] = refl
map-take f (suc n) (x ∷ xs) = ap (λ r. f x ∷ r) (map-take f n xs)

map-drop {ℓ κ} :
    {A : Type ℓ} {B : Type κ} (f : A → B) (n : ℕ) (xs : List A)
    → drop n (map f xs) ≡ map f (drop n xs)
map-drop f zero xs = refl
map-drop f (suc n) [] = refl
map-drop f (suc n) (x ∷ xs) = map-drop f n xs

module _ (m : Merkle) (sha256 : Bytes → Hash) (hex : Bytes → Str) where
  abbrev hashed : Bytes → Hash
  hashed = leaf_hash m sha256 hex

  -- Two different entries with one leaf hash: a collision of SHA-256.
  pub record LeafCollision : Type 0 where
    pub first : Bytes
    pub second : Bytes
    pub same : hashed first ≡ hashed second
    pub differ : first ≢ second

  unequal : (x y : Bytes) → str_eq x y ≡ false → x ≢ y
  unequal x y h e = different (sym h ∙ (ap (str_eq x) (sym e) ∙ str_eq_refl x))
    where
      different : false ≡ true → ⊥
      different p = cc

  entries_equal : (xs ys : List Bytes) → map hashed xs ≡ map hashed ys → (xs ≡ ys) ⊎ LeafCollision
  entries_equal [] [] e = inl refl
  entries_equal [] (y ∷ ys) e = cc
  entries_equal (x ∷ xs) [] e = cc
  entries_equal (x ∷ xs) (y ∷ ys) e =
      let (head_same, tail_same) = parts (hashed x) (hashed y) (map hashed xs) (map hashed ys) e in
      elim (entries_equal xs ys tail_same) [
        | inr collision ↦ inr collision
        | inl rest ↦ elim (Bool-cases (str_eq x y)) [
          | inl here ↦ inl (ap₂ (λ a r. a ∷ r) (str_eq→eq x y here) rest)
          | inr other ↦
              inr (record { first = x; second = y; same = head_same; differ = unequal x y other })
        ]
      ]
    where
      parts :
          (a b : Hash) (as' bs : List Hash)
          → Path (List Hash) (a ∷ as') (b ∷ bs)
          → (a ≡ b) × (as' ≡ bs)
      parts a b as' bs p = (cc, cc)

  module _ (laws : IsRfc6962 m) (proof : RangeProof) (leaves entries : List Bytes) where
    -- When `verify_over_leaves` accepts carried leaves against the root of a log of the declared
    -- size, at most 2^64 - 1 entries, the proof names a non-empty sub-range of the log and the carried
    -- leaves are exactly its entries in order; otherwise a collision is at hand, of the node hash or
    -- of the leaf hash.
    pub verify_over_leaves_sound :
        length entries ≡ proof.tree_size
        → length entries ≤ u64_max
        → verify_over_leaves m sha256 hex proof leaves (tree_root m sha256 hex entries) ≡ ok true
        → ((proof.from_index < proof.to_index)
            × (proof.to_index ≤ length entries)
            × (leaves ≡ slice proof.from_index (proof.to_index - proof.from_index) entries))
          ⊎ (Collision m ⊎ LeafCollision)
    unfolding verify_over_leaves tree_root
    verify_over_leaves_sound size range accepted =
        let count = length-map hashed entries in
        elim (verify_sound m laws proof (map hashed leaves) (map hashed entries) (count ∙ size)
          (rw count range) accepted) [
            | inr collision ↦ inr (inl collision)
            | inl (width, fits, hashes) ↦
                elim (entries_equal leaves
                  (slice proof.from_index (proof.to_index - proof.from_index) entries)
                  (hashes
                    ∙ (ap (take (proof.to_index - proof.from_index))
                          (map-drop hashed proof.from_index entries)
                        ∙ map-take hashed (proof.to_index - proof.from_index)
                            (drop proof.from_index entries)))) [
                              | inl same ↦ inl (width, rw (sym count) fits, same)
                              | inr collision ↦ inr (inr collision)
                            ]
          ]
