-- ===== src/Governance/Tests.antt =====
-- A chain of two manifests with key transitions, and the theorems on it.
use ahl_core.Prelude.{ℕ, ◌≡◌, ◌↔◌, refl, true, false, some, List, [], ◌∷◌, Str, codes}
use ahl_core.Prelude.Order.{nat_ord, list_ord, cmp_list}
use ahl_core.Prelude.Maps.{lookup, put, remove}
use ahl_core.Error.{ok, err}
use ahl_core.Receipt.Outcome.{unverifiable, invalid}
use ahl_core.Receipt.Failure.{class, governance_rotation_unverifiable}
use ahl_core.Receipt.Fields.{ReceiptResult}
use ahl_core.Governance.{
  KeyEvent, Governance, rfind, snapshot_manifest_in, producer_keys_at_in, manifest_for_binding,
  apply_events, apply_event, insert_snapshot,
}
use ahl_core.Governance.InForce.{under, producer_keys_at_in-last}
use ahl_core.Governance.Later.{IsBeyond, producer_keys_at_in-append, manifest_for_binding-class}

-- A manifest is the list of its keys.
abbrev Manifest : Type 0
Manifest = List (Str × Str)

abbrev listed : Manifest → ReceiptResult (List (Str × Str))
listed manifest = ok manifest

abbrev genesis : ℕ × Manifest
genesis = (0, (codes "a", codes "A") ∷ (codes "b", codes "B") ∷ [])

abbrev second : ℕ × Manifest
second = (5, (codes "b", codes "B") ∷ [])

abbrev manifests : List (ℕ × Manifest)
manifests = genesis ∷ second ∷ []

abbrev adds : ℕ → Str → Str → KeyEvent
adds entry_index key_id pubkey = record {
  entry_index = entry_index;
  key_id = key_id;
  pubkey = pubkey;
  added = true;
}

abbrev removes : ℕ → Str → KeyEvent
removes entry_index key_id = record {
  entry_index = entry_index;
  key_id = key_id;
  pubkey = [];
  added = false;
}

abbrev events : List KeyEvent
events =
    adds 2 (codes "c") (codes "C") ∷ adds 7 (codes "a") (codes "D") ∷ removes 8 (codes "b") ∷ []

producer_keys_at_in-last_example :
    lookup (producer_keys_at_in listed manifests events 8) (codes "a")
    ≡ under listed events 8 (codes "a") (snapshot_manifest_in manifests 8)
producer_keys_at_in-last_example = producer_keys_at_in-last listed manifests events 8 (codes "a")

key-in_force :
    lookup (producer_keys_at_in listed manifests events 8) (codes "a")
    ≡ some record { pubkey = codes "D"; bound_at = 7 }
unfolding producer_keys_at_in snapshot_manifest_in rfind lookup apply_events apply_event
    insert_snapshot put remove cmp_list
key-in_force = refl

producer_keys_at_in-append_example :
    producer_keys_at_in listed (genesis ∷ second ∷ []) events 4
    ≡ producer_keys_at_in listed (genesis ∷ []) (adds 2 (codes "c") (codes "C") ∷ []) 4
producer_keys_at_in-append_example =
    producer_keys_at_in-append listed (genesis ∷ []) (second ∷ [])
      (adds 2 (codes "c") (codes "C") ∷ [])
      (adds 7 (codes "a") (codes "D") ∷ removes 8 (codes "b") ∷ []) genesis 4 refl refl refl

-- The walk stopped at entry 6; the chain carries a version at entry 9.
abbrev stopped : Governance Manifest
stopped = record {
  mode = codes "declared";
  manifests = manifests;
  events = events;
  manifest_by_version_id = (codes "v", genesis) ∷ [];
  chain_index = (codes "v", 0) ∷ (codes "w", 9) ∷ [];
  walked_indexes = 0 ∷ 5 ∷ [];
  void_chain = [];
  chain_indexes = 0 ∷ 5 ∷ 9 ∷ [];
  unestablished_from = some 6;
}

beyond-run : manifest_for_binding stopped (codes "w") ≡ err (governance_rotation_unverifiable 6)
unfolding manifest_for_binding lookup cmp_list
beyond-run = refl

manifest_for_binding-class_example :
    ((class (governance_rotation_unverifiable 6) ≡ unverifiable) ↔ IsBeyond stopped (codes "w"))
    × ((class (governance_rotation_unverifiable 6) ≡ invalid) ↔ (IsBeyond stopped (codes "w") → ⊥))
manifest_for_binding-class_example =
    manifest_for_binding-class stopped (codes "w") (governance_rotation_unverifiable 6) beyond-run
