-- ===== src/RangeProof.antt =====
-- src/range_proof.rs: authenticated range proofs. `usize` is 64 bits wide, as `u64`.
-- The closure that `walk_outside` calls at each subtree changes variables of its caller, which are
-- the state `S` here. The recursions take fuel; the size of the tree is enough (Walk, Complete).
pub mod Walk
pub mod Sound
pub mod Complete
pub mod Depths
pub mod Inclusion
pub mod RoundTrip
pub mod Fuel
pub mod Entries
pub mod Codec
pub mod Frame
pub mod Slices
pub mod Decoded
pub mod Encoded
pub mod Canonical
mod Tests
use ahl_core.Prelude.{
  ℕ, zero, suc, ◌+◌, ◌-◌, ◌^◌, min, Bool, true, false, not, ◌&&◌, ◌||◌, Option, none, some, List,
  [], ◌∷◌, ◌++◌, map, codes, str_eq, length, take, drop, get_elem?, ltb, leb, ◌==◌, if◌then◌else◌,
}
use ahl_core.Error.{
  text, num, lit, range_proof, merkle, out_of_fuel, ok, err, AhlResult, ◌>>=◌, ◌>>◌, ok_or, map_err,
  reject_if,
}
use ahl_core.Merkle.{Hash, InclusionProof, Merkle}

abbrev pub u64_max : ℕ
u64_max = 2 ^ 64 - 1

abbrev pub u32_max : ℕ
u32_max = 2 ^ 32 - 1

-- `saturating_add` on u64 and on u32; `saturating_sub` is the subtraction of ℕ.
abbrev pub sat_add : ℕ → ℕ → ℕ
sat_add a b = min (a + b) u64_max

abbrev pub sat_add_u32 : ℕ → ℕ → ℕ
sat_add_u32 a b = min (a + b) u32_max

-- `slice.get(lo..hi)`
unfoldable pub get_range {ℓ} : {A : Type ℓ} → List A → ℕ → ℕ → Option (List A)
get_range xs lo hi =
    if leb lo hi && leb hi (length xs) then some (take (hi - lo) (drop lo xs)) else none

pub record RangeProof : Type 0 where
  pub tree_size : ℕ
  pub from_index : ℕ
  pub to_index : ℕ
  pub nodes : List Hash

pub data Span : Type 0 where
  outside inside straddles : Span

unfoldable pub classify : ℕ → ℕ → ℕ → ℕ → Span
classify offset size from to =
    let end = sat_add offset size in
    if leb end from || leb to offset
    then outside
    else if leb from offset && leb end to
    then inside
    else straddles

unfoldable pub check_range : ℕ → ℕ → ℕ → AhlResult (Unit {0})
check_range tree_size from to = do
  reject_if (tree_size == 0) (range_proof (lit (codes "tree size 0")))
  reject_if (leb to from || ltb tree_size to) (
      range_proof (
        text (codes "range [")
        ∷ num from
        ∷ text (codes ", ")
        ∷ num to
        ∷ text (codes ") is not a non-empty sub-range of [0, ")
        ∷ num tree_size
        ∷ text (codes ")")
        ∷ []))
  ok tt

-- `checked_sub` and `checked_add` on u64
unfoldable pub checked_sub : ℕ → ℕ → Option ℕ
checked_sub a b = if leb b a then some (a - b) else none

unfoldable pub checked_add : ℕ → ℕ → Option ℕ
checked_add a b = if leb (a + b) u64_max then some (a + b) else none

-- `sort_by_key(|(depth, _)| Reverse(*depth))`: the library's sort is stable.
module _ {ℓ} {A : Type ℓ} where
  unfoldable pub insert_by_depth : ℕ × A → List (ℕ × A) → List (ℕ × A)
  insert_by_depth x [] = x ∷ []
  insert_by_depth x (y ∷ ys) =
      let rest = insert_by_depth x ys in if leb y.0 x.0 then x ∷ y ∷ ys else y ∷ rest

  unfoldable pub sort_by_depth : List (ℕ × A) → List (ℕ × A)
  sort_by_depth [] = []
  sort_by_depth (x ∷ xs) = insert_by_depth x (sort_by_depth xs)

module _ (m : Merkle) where
  open m use {compute_root, hash_children, largest_power_of_2_less_than, verify_inclusion}

  pub walk_outside : {S : Type 0} → ℕ → ℕ → ℕ → ℕ → ℕ → ℕ → (ℕ → ℕ → ℕ → S → S) → S → S
  walk_outside zero offset size from to depth visit s = elim (classify offset size from to) [
    | outside ↦ visit offset size depth s
    | _ ↦ s
  ]
  walk_outside (suc fuel) offset size from to depth visit s = elim (classify offset size from to) [
    | outside ↦ visit offset size depth s
    | inside ↦ s
    | straddles ↦
        let k = largest_power_of_2_less_than size in
        walk_outside fuel (sat_add offset k) (size - k) from to (sat_add_u32 depth 1) visit
          (walk_outside fuel offset k from to (sat_add_u32 depth 1) visit s)
  ]

  -- The closure of `generate`.
  pub push_root : List Hash → ℕ → ℕ → ℕ → List Hash → List Hash
  push_root leaf_hashes offset size depth nodes =
      nodes
      ++ compute_root (elim (get_range leaf_hashes offset (sat_add offset size)) [
        | some span ↦ span
        | none ↦ []
      ])
        ∷ []

  pub generate : List Hash → ℕ → ℕ → AhlResult RangeProof
  generate leaf_hashes from_index to_index = do
    let tree_size = length leaf_hashes
    check_range tree_size from_index to_index
    ok (record {
      tree_size = tree_size;
      from_index = from_index;
      to_index = to_index;
      nodes = walk_outside tree_size 0 tree_size from_index to_index 0 (push_root leaf_hashes) [];
    })

  -- The branch `Span::Outside` of `recompute`: the next carried subtree hash.
  pub next_node : RangeProof → ℕ → AhlResult (Hash × ℕ)
  next_node proof cursor = do
    node ←
        ok_or (get_elem? proof.nodes cursor)
          (range_proof (lit (codes "proof has too few subtree hashes")))
    ok (node, sat_add cursor 1)

  -- The branch `Span::Inside`: the root of the carried leaves of that span.
  pub root_of_carried : ℕ → ℕ → RangeProof → List Hash → ℕ → AhlResult (Hash × ℕ)
  root_of_carried offset size proof leaf_hashes cursor = do
    lo ←
        ok_or (checked_sub offset proof.from_index)
          (range_proof (lit (codes "range offset underflows")))
    hi ← ok_or (checked_add lo size) (range_proof (lit (codes "range end overflows usize")))
    span ←
        ok_or (get_range leaf_hashes lo hi) (range_proof (lit (codes "carried leaf set is short")))
    ok (compute_root span, cursor)

  -- `&mut cursor` is passed in and out; after an error no caller reads it.
  pub recompute : ℕ → ℕ → ℕ → RangeProof → List Hash → ℕ → AhlResult (Hash × ℕ)
  recompute zero offset size proof leaf_hashes cursor =
      elim (classify offset size proof.from_index proof.to_index) [
        | outside ↦ next_node proof cursor
        | inside ↦ root_of_carried offset size proof leaf_hashes cursor
        | straddles ↦ err out_of_fuel
      ]
  recompute (suc fuel) offset size proof leaf_hashes cursor =
      elim (classify offset size proof.from_index proof.to_index) [
        | outside ↦ next_node proof cursor
        | inside ↦ root_of_carried offset size proof leaf_hashes cursor
        | straddles ↦
            let k = largest_power_of_2_less_than size in
            recompute fuel offset k proof leaf_hashes cursor >>= λ left.
            recompute fuel (sat_add offset k) (size - k) proof leaf_hashes left.1 >>= λ right.
            ok (hash_children left.0 right.0, right.1)
      ]

  -- The closure of `verify`: the carried hash of this subtree, with its depth.
  unfoldable pub collect_node : List Hash → ℕ → ℕ → ℕ → List (ℕ × Hash) × ℕ → List (ℕ × Hash) × ℕ
  collect_node nodes offset size depth (ordered, index) = (
    elim (get_elem? nodes index) [ some node ↦ ordered ++ (depth, node) ∷ [] | none ↦ ordered ],
    sat_add index 1,
  )

  -- The inclusion proof that a one-entry range proof stands for.
  pub as_inclusion : RangeProof → InclusionProof
  as_inclusion proof =
      let (ordered, _) =
        walk_outside proof.tree_size 0 proof.tree_size proof.from_index proof.to_index 0
          (collect_node proof.nodes) ([], 0) in
      record {
        leaf_index = proof.from_index;
        tree_size = proof.tree_size;
        path = map (λ x. x.1) (sort_by_depth ordered);
      }

  -- The cross-check of a one-entry range with the verifier of `atl_core`.
  pub cross_check : RangeProof → List Hash → Hash → AhlResult Bool
  cross_check proof [] root = err (range_proof (lit (codes "carried leaf set is short")))
  cross_check proof (leaf ∷ _) root = do
    accepted ← map_err merkle (verify_inclusion leaf (as_inclusion proof) root)
    ok accepted

  pub verify : RangeProof → List Hash → Hash → AhlResult Bool
  verify proof leaf_hashes root = do
    check_range proof.tree_size proof.from_index proof.to_index
    width ←
        ok_or (checked_sub proof.to_index proof.from_index)
          (range_proof (lit (codes "inverted range")))
    reject_if (not (length leaf_hashes == width)) (
        range_proof (
          text (codes "range [")
          ∷ num proof.from_index
          ∷ text (codes ", ")
          ∷ num proof.to_index
          ∷ text (codes ") needs exactly ")
          ∷ num width
          ∷ text (codes " leaves, ")
          ∷ num (length leaf_hashes)
          ∷ text (codes " were carried")
          ∷ []))
    result ← recompute proof.tree_size 0 proof.tree_size proof leaf_hashes 0
    reject_if (not (result.1 == length proof.nodes)) (
        range_proof (
          text (codes "proof carries ")
          ∷ num (length proof.nodes)
          ∷ text (codes " subtree hashes, ")
          ∷ num result.1
          ∷ text (codes " were consumed")
          ∷ []))
    if not (str_eq result.0 root)
        then ok false
        else (if width == 1 then cross_check proof leaf_hashes root else ok true)
