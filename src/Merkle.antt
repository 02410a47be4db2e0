-- ===== src/Merkle.antt =====
-- What ahl-core takes from the Merkle module of the crate `atl_core`, which is not part of the
-- repository, as a parameter; and what range_proof.rs relies on, which is RFC 6962 as the header of
-- range_proof.rs and spec section 2.5 restate it.
pub mod Roots
pub mod Toy
use ahl_core.Prelude.{
  ℕ, ◌*◌, ◌^◌, ◌≤◌, ◌<◌, ◌≡◌, ◌≢◌, ◌⊎◌, Bool, List, [], ◌∷◌, Str, Bytes, length, take, drop,
}
use ahl_core.Error.{Result}

-- `[u8; 32]`
abbrev pub Hash : Type 0
Hash = Bytes

pub record InclusionProof : Type 0 where
  pub leaf_index : ℕ
  pub tree_size : ℕ
  pub path : List Hash

pub record Merkle : Type 0 where
  pub compute_root : List Hash → Hash
  pub hash_children : Hash → Hash → Hash
  pub largest_power_of_2_less_than : ℕ → ℕ
  pub verify_inclusion : Hash → InclusionProof → Hash → Result Str Bool

-- RFC 6962 section 2.1: k is the largest power of two smaller than n.
pub record IsSplit (n k : ℕ) : Type 0 where
  pub exponent : ℕ
  pub power : k ≡ 2 ^ exponent
  pub below : k < n
  pub half : n ≤ 2 * k

-- RFC 6962 section 2.1: MTH(D[n]) = HASH(MTH(D[0:k]) || MTH(D[k:n])), on hashed leaves.
pub record IsRfc6962 (m : Merkle) : Type 0 where
  pub split : (n : ℕ) → 1 < n → IsSplit n (m.largest_power_of_2_less_than n)
  pub root_one : (h : Hash) → m.compute_root (h ∷ []) ≡ h
  pub root_split :
      (hs : List Hash)
      → 1 < length hs
      → m.compute_root hs
        ≡ m.hash_children
            (m.compute_root (take (m.largest_power_of_2_less_than (length hs)) hs))
            (m.compute_root (drop (m.largest_power_of_2_less_than (length hs)) hs))

-- Two different pairs of nodes with one parent hash: a collision of SHA-256.
pub record Collision (m : Merkle) : Type 0 where
  pub left : Hash
  pub right : Hash
  pub left' : Hash
  pub right' : Hash
  pub same : m.hash_children left right ≡ m.hash_children left' right'
  pub differ : (left ≢ left') ⊎ (right ≢ right')
