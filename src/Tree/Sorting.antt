-- ===== src/Tree/Sorting.antt =====
-- `record_sorted` of src/lib.rs: the leaves of a record tree in the order that
-- `ValidatedLeafSet::open` of src/tree.rs accepts.
use ahl_core.Prelude.{ℕ, not, none, some, List, [], ◌∷◌, Str, codes, str_eq, Ordering}
use ahl_core.Prelude.Order.{Ord, nat_ord, list_ord, sort_by}
use ahl_core.Error.{invalid_commitment, duplicate_record, ok, AhlResult, ◌>>=◌, ◌>>◌, reject_if}
use ahl_core.Json.{Json}
use ahl_core.Tree.{is_canonical_commitment, record_of, field_str}

module _ (json : Json) where
  open json use {Value}

  -- The loop over the leaves before they are sorted.
  unfoldable pub check_records : List Value → AhlResult (Unit {0})
  check_records [] = ok tt
  check_records (leaf ∷ rest) = field_str json leaf (codes "record") >>= λ commitment.
      reject_if (not (is_canonical_commitment commitment)) (invalid_commitment commitment)
      >> check_records rest

  unfoldable pub record_key : Value → Str
  record_key leaf = elim (record_of json leaf) [ some commitment ↦ commitment | none ↦ [] ]

  abbrev pub cmp_record : Value → Value → Ordering
  cmp_record a b = Ord.cmp (list_ord {A = ℕ}) (record_key a) (record_key b)

  -- The loop over the neighbours.
  unfoldable pub check_unique : List Value → AhlResult (Unit {0})
  check_unique [] = ok tt
  check_unique (left ∷ []) = ok tt
  check_unique (left ∷ right ∷ rest) =
      reject_if (str_eq (record_key left) (record_key right)) (duplicate_record (record_key left))
      >> check_unique (right ∷ rest)

  unfoldable pub record_sorted : List Value → AhlResult (List Value)
  record_sorted leaves =
      check_records leaves
      >> (check_unique (sort_by cmp_record leaves) >> ok (sort_by cmp_record leaves))
