-- ===== src/Checkpoint/Cosigned/Tests.antt =====
-- The theorems on cosigned checkpoints (src/lib.rs) at two objects, one of which carries `raw`.
use ahl_core.Prelude.{◌≡◌, ◌↔◌, refl, List, [], ◌∷◌, Bytes, Str, codes, str_eq, arith}
use ahl_core.Error.{ok}
use ahl_core.Json.{last_member}
use ahl_core.Json.CanonicalText.{
  pairs, read_pairs, text_json, text_json-BuildsObjects, text_json-IsCanonical,
}
use ahl_core.Checkpoint.Cosigned.{
  CosignedCheckpoint, check_extra, required_text, read_members, project, cosignature_bytes,
}
use ahl_core.Checkpoint.Cosigned.Projected.{IsProjection, project_iff}
use ahl_core.Checkpoint.Cosigned.Binding.{IsSameCosigned, cosignature_bytes_binds}

abbrev six : List (Str × Bytes)
six =
    (codes "log_id", 4 ∷ codes "l")
    ∷ (codes "tree_size", 3 ∷ 3 ∷ [])
    ∷ (codes "root_hash", 4 ∷ codes "h")
    ∷ (codes "checkpoint_time", 4 ∷ codes "t")
    ∷ (codes "key_id", 4 ∷ codes "k")
    ∷ (codes "signature", 4 ∷ codes "s")
    ∷ []

abbrev without_raw : Bytes
without_raw = 6 ∷ pairs six

abbrev with_raw : Bytes
with_raw = 6 ∷ pairs ((codes "raw", 4 ∷ codes "base64:AA==") ∷ six)

abbrev cosigned : CosignedCheckpoint
cosigned = record {
  log_id = codes "l";
  tree_size = 3;
  root_hash = codes "h";
  checkpoint_time = codes "t";
  key_id = codes "k";
  signature = codes "s";
}

abbrev witness : Str
witness = codes "w"

project-without_raw : project text_json without_raw ≡ ok cosigned
unfolding project check_extra read_members required_text last_member str_eq pairs read_pairs
project-without_raw = refl

project-with_raw : project text_json with_raw ≡ ok cosigned
unfolding project check_extra read_members required_text last_member str_eq pairs read_pairs
project-with_raw = refl

project_iff_example :
    (project text_json with_raw ≡ ok cosigned) ↔ IsProjection text_json with_raw cosigned
project_iff_example = project_iff text_json text_json-BuildsObjects with_raw cosigned

cosignature_bytes_binds_example :
    (cosignature_bytes text_json cosigned witness ≡ cosignature_bytes text_json cosigned witness)
    ↔ IsSameCosigned text_json without_raw with_raw × (witness ≡ witness)
cosignature_bytes_binds_example =
    cosignature_bytes_binds text_json text_json-BuildsObjects text_json-IsCanonical without_raw
      with_raw cosigned cosigned witness witness project-without_raw project-with_raw (omega arith)
      (omega arith)
