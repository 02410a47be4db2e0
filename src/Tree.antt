-- ===== src/Tree.antt =====
-- src/tree.rs: validated leaf sets of record trees, with the helpers of src/lib.rs that it uses.
pub mod Opened
pub mod Sorting
pub mod Sortable
mod Tests
use ahl_core.Prelude.{
  ℕ, suc, ◌+◌, Bool, true, false, not, ◌&&◌, ◌||◌, Option, none, some, List, [], ◌∷◌, ◌++◌, Str,
  Bytes, codes, str_eq, leb, ◌==◌, if◌then◌else◌, all, map, length, Ordering,
}
use ahl_core.Prelude.Order.{Ord, nat_ord, list_ord}
use ahl_core.Error.{
  AhlError, lit, field, tree_count_mismatch, invalid_commitment, tree_unsorted, tree_root_mismatch,
  Result, ok, err, AhlResult, ◌>>=◌, ◌>>◌, ok_or, reject_if,
}
use ahl_core.Json.{Json}
use ahl_core.Merkle.{Hash, Merkle}

-- `split_once(':')`
unfoldable pub split_colon : Str → Option (Str × Str)
split_colon [] = none
split_colon (b ∷ s) =
    let later = split_colon s in
    if b == 58 then some ([], s) else elim later [ none ↦ none | some x ↦ some (b ∷ x.0, x.1) ]

abbrev pub is_hex : ℕ → Bool
is_hex b = (leb 48 b && leb b 57) || (leb 97 b && leb b 102)

unfoldable pub is_canonical_commitment : Str → Bool
is_canonical_commitment value = elim (split_colon value) [
  | none ↦ false
  | some x ↦
      (str_eq x.0 (codes "sha256") || str_eq x.0 (codes "hmac-sha256"))
      && (length x.1 == 64 && all is_hex x.1)
]

-- `prev.as_bytes() < record.as_bytes()`
abbrev pub is_lt : Ordering → Bool
is_lt Ordering.lt = true
is_lt Ordering.eq = false
is_lt Ordering.gt = false

abbrev pub before : Str → Str → Bool
before a b = is_lt (Ord.cmp (list_ord {A = ℕ}) a b)

-- `previous.is_some_and(|prev| prev.as_bytes() >= record.as_bytes())`
abbrev pub is_unsorted : Option Str → Str → Bool
is_unsorted none commitment = false
is_unsorted (some previous) commitment = not (before previous commitment)

-- SHA-256 and hex are crates.
module _ (m : Merkle) (sha256 : Bytes → Hash) (hex : Bytes → Str) where
  unfoldable pub leaf_hash : Bytes → Hash
  leaf_hash bytes = sha256 (0 ∷ bytes)

  unfoldable pub tree_root : List Bytes → Hash
  tree_root leaves = m.compute_root (map leaf_hash leaves)

  unfoldable pub hash_hex : Hash → Str
  hash_hex hash = codes "sha256:" ++ hex hash

module _ (json : Json) where
  open json use {Value, get, as_str}

  -- `value.get(field).and_then(Value::as_str)`
  abbrev pub str_member : Option Value → Option Str
  str_member none = none
  str_member (some v) = as_str v

  unfoldable pub field_str : Value → Str → AhlResult Str
  field_str value name = ok_or (str_member (get value name)) (field (lit name))

  abbrev pub record_of : Value → Option Str
  record_of leaf = str_member (get leaf (codes "record"))

  -- The checks on one leaf, after its record was read.
  unfoldable pub check_record : Str → ℕ → Option Str → Str → AhlResult (Unit {0})
  check_record root index previous commitment =
      reject_if (not (is_canonical_commitment commitment)) (invalid_commitment commitment)
      >> reject_if (is_unsorted previous commitment) (tree_unsorted root index commitment)

  -- The loop over the leaves.
  unfoldable pub check_leaves : Str → ℕ → Option Str → List Value → AhlResult (Unit {0})
  check_leaves root index previous [] = ok tt
  check_leaves root index previous (leaf ∷ rest) = field_str leaf (codes "record") >>= λ commitment.
      check_record root index previous commitment
      >> check_leaves root (index + 1) (some commitment) rest

  pub record ValidatedLeafSet : Type 0 where
    pub root : Str
    pub leaves : List Value

  module _ (m : Merkle) (sha256 : Bytes → Hash) (hex : Bytes → Str) where
    abbrev pub recomputed_root : List Value → Str
    recomputed_root leaves = hash_hex m sha256 hex (tree_root m sha256 hex (map json.jcs leaves))

    -- `ValidatedLeafSet::open`
    unfoldable pub open_leaf_set : Str → ℕ → List Value → AhlResult ValidatedLeafSet
    open_leaf_set root declared_count leaves =
        reject_if (not (length leaves == declared_count))
          (tree_count_mismatch root declared_count (length leaves))
        >> (check_leaves root 0 none leaves
            >> (reject_if (not (str_eq (recomputed_root leaves) root))
                  (tree_root_mismatch root (recomputed_root leaves))
                >> ok record { root = root; leaves = leaves }))
