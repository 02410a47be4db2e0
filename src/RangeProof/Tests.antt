-- ===== src/RangeProof/Tests.antt =====
-- Runs of range_proof.rs on small trees, and the theorems at concrete inputs.
use ahl_core.Prelude.{◌-◌, ◌≤◌, ◌<◌, ◌≡◌, refl, ◌⊎◌, true, List, [], ◌∷◌, arith, length, str_eq}
use ahl_core.Error.{ok}
use ahl_core.Merkle.{Hash, Collision}
use ahl_core.Merkle.Toy.{toy, toy-IsRfc6962, concat, double_below}
use ahl_core.Merkle.Roots.{slice}
use ahl_core.RangeProof.{
  RangeProof, generate, verify, check_range, checked_sub, checked_add, get_range, classify,
  walk_outside, push_root, recompute, next_node, root_of_carried,
}
use ahl_core.RangeProof.Inclusion.{AcceptsAuditPaths}
use ahl_core.RangeProof.Sound.{verify_sound}
use ahl_core.RangeProof.RoundTrip.{generate-verifies}
use ahl_core.Prelude.{◌↔◌, codes, Bytes}
use ahl_core.Base64.Toy.{toy_base64, toy_base64-IsStandard}
use ahl_core.Tree.{leaf_hash, tree_root}
use ahl_core.RangeProof.Codec.{encode, decode, verify_over_leaves}
use ahl_core.RangeProof.Slices.{IsWellFormed}
use ahl_core.RangeProof.Canonical.{decode_iff}
use ahl_core.RangeProof.Entries.{LeafCollision, verify_over_leaves_sound}
use ahl_core.RangeProof.Fuel.{fails_documented, verify-fails_documented}

abbrev five : List Hash
five = (1 ∷ []) ∷ (2 ∷ []) ∷ (3 ∷ []) ∷ (4 ∷ []) ∷ (5 ∷ []) ∷ []

abbrev middle : RangeProof
middle = record {
  tree_size = 5;
  from_index = 1;
  to_index = 3;
  nodes = (1 ∷ []) ∷ (4 ∷ []) ∷ (5 ∷ []) ∷ [];
}

generate-five : generate toy five 1 3 ≡ ok middle
unfolding generate check_range walk_outside classify push_root get_range concat double_below
generate-five = refl

verify-middle : verify toy middle ((2 ∷ []) ∷ (3 ∷ []) ∷ []) (toy.compute_root five) ≡ ok true
unfolding verify check_range checked_sub checked_add recompute classify next_node root_of_carried
    get_range str_eq concat double_below
verify-middle = refl

verify_sound_example :
    ((1 < 3) × (3 ≤ length five) × ((2 ∷ []) ∷ (3 ∷ []) ∷ [] ≡ slice 1 (3 - 1) five))
    ⊎ Collision toy
verify_sound_example =
    verify_sound toy toy-IsRfc6962 middle ((2 ∷ []) ∷ (3 ∷ []) ∷ []) five refl (omega arith)
      verify-middle

toy-AcceptsAuditPaths : AcceptsAuditPaths toy
toy-AcceptsAuditPaths = record { accepts = λ all i leaf h. refl }

generate-verifies_example :
    (proof : RangeProof) × (generate toy five 2 3 ≡ ok proof)
    × (verify toy proof (slice 2 (3 - 2) five) (toy.compute_root five) ≡ ok true)
generate-verifies_example =
    generate-verifies toy toy-IsRfc6962 toy-AcceptsAuditPaths five 2 3 (omega arith) (omega arith)
      (omega arith)

-- Entry 1 of two, whose neighbour is a node of 32 bytes.
abbrev one_node : RangeProof
one_node = record {
  tree_size = 2;
  from_index = 1;
  to_index = 2;
  nodes = codes "0123456789abcdef0123456789abcdef" ∷ [];
}

decode_iff_example :
    (decode toy_base64 (encode toy_base64 one_node) ≡ ok one_node)
    ↔ (IsWellFormed one_node × (encode toy_base64 one_node ≡ encode toy_base64 one_node))
decode_iff_example =
    decode_iff toy_base64 toy_base64-IsStandard (encode toy_base64 one_node) one_node

one_node-IsWellFormed : IsWellFormed one_node
one_node-IsWellFormed = record {
  tree_size_fits = omega arith;
  from_index_fits = omega arith;
  to_index_fits = omega arith;
  count_fits = omega arith;
  nodes_fit = refl;
}

decode-encode : decode toy_base64 (encode toy_base64 one_node) ≡ ok one_node
decode-encode =
    (decode_iff toy_base64 toy_base64-IsStandard (encode toy_base64 one_node) one_node).1
      (one_node-IsWellFormed, refl)

abbrev same : Bytes → Bytes
same bytes = bytes

abbrev hashes_of_five : RangeProof
hashes_of_five = record {
  tree_size = 5;
  from_index = 1;
  to_index = 3;
  nodes = (0 ∷ 1 ∷ []) ∷ (0 ∷ 4 ∷ []) ∷ (0 ∷ 5 ∷ []) ∷ [];
}

over-leaves :
    verify_over_leaves toy same same hashes_of_five
      ((2 ∷ []) ∷ (3 ∷ []) ∷ [])
      (tree_root toy same same five)
    ≡ ok true
unfolding verify_over_leaves tree_root leaf_hash verify check_range checked_sub checked_add
    recompute classify next_node root_of_carried get_range str_eq concat double_below
over-leaves = refl

verify_over_leaves_sound_example :
    ((1 < 3) × (3 ≤ length five) × ((2 ∷ []) ∷ (3 ∷ []) ∷ [] ≡ slice 1 (3 - 1) five))
    ⊎ (Collision toy ⊎ LeafCollision toy same same)
verify_over_leaves_sound_example =
    verify_over_leaves_sound toy same same toy-IsRfc6962 hashes_of_five ((2 ∷ []) ∷ (3 ∷ []) ∷ [])
      five refl (omega arith) over-leaves

verify-fails_documented_example :
    fails_documented (verify toy middle ((2 ∷ []) ∷ []) (toy.compute_root five)) ≡ true
verify-fails_documented_example =
    verify-fails_documented toy toy-IsRfc6962 middle ((2 ∷ []) ∷ []) (omega arith)
      (toy.compute_root five)
