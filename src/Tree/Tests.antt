-- ===== src/Tree/Tests.antt =====
-- A leaf set of src/tree.rs, opened, and the theorem at that input.
use ahl_core.Prelude.{
  Bool, filter, length, none, List, [], ◌∷◌, Str, Bytes, codes, str_eq, ◌≡◌, refl,
}
use ahl_core.Prelude.Order.{cmp_list, sort_by, insert_by}
use ahl_core.Error.{ok}
use ahl_core.Json.Toy.{Tree, t_str, t_obj, f_end, f_item, field, toy_json}
use ahl_core.Merkle.Toy.{toy}
use ahl_core.Tree.{
  split_colon, is_canonical_commitment, field_str, check_record, check_leaves, recomputed_root,
  open_leaf_set,
}
use ahl_core.Tree.Sorting.{check_records, record_key, check_unique, record_sorted}
use ahl_core.Tree.Sortable.{record_sorted-opens}

abbrev zeros : Str
zeros = codes "sha256:0000000000000000000000000000000000000000000000000000000000000000"

abbrev zeros_keyed : Str
zeros_keyed = codes "hmac-sha256:0000000000000000000000000000000000000000000000000000000000000000"

abbrev leaf : Str → Tree
leaf commitment = t_obj (f_item (codes "record") (t_str commitment) f_end)

abbrev same : Bytes → Bytes
same bytes = bytes

abbrev two_leaves : List Tree
two_leaves = leaf zeros_keyed ∷ leaf zeros ∷ []

abbrev root_of_two : Str
root_of_two = recomputed_root toy_json toy same same two_leaves

checks-two : check_leaves toy_json root_of_two 0 none two_leaves ≡ ok tt
unfolding check_leaves check_record field_str is_canonical_commitment split_colon field str_eq
    cmp_list
checks-two = refl

abbrev unordered : List Tree
unordered = leaf zeros ∷ leaf zeros_keyed ∷ []

sorted-run : record_sorted toy_json unordered ≡ ok two_leaves
unfolding record_sorted check_records record_key check_unique field_str field str_eq cmp_list
    is_canonical_commitment split_colon sort_by insert_by
sorted-run = refl

record_sorted-opens_example :
    ((p : Tree → Bool) → length (filter p two_leaves) ≡ length (filter p unordered))
    × (open_leaf_set toy_json toy same same root_of_two 2 two_leaves
        ≡ ok record { root = root_of_two; leaves = two_leaves })
record_sorted-opens_example =
    record_sorted-opens toy_json toy same same unordered two_leaves sorted-run
