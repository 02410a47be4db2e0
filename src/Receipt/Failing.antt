-- ===== src/Receipt/Failing.antt =====
-- No rejection has the value `verified` (receipt.rs, `ReceiptError::class`).
use ahl_core.Prelude.{◌≡◌, refl, true}
use ahl_core.Receipt.Outcome.{unverifiable}
use ahl_core.Receipt.Failure.{
  ReceiptError, class, malformed, unsupported_version, limit_exceeded, budget_exhausted,
  identifier_mismatch, adaptor_unknown, adaptor_hash_mismatch, adaptor_binding_invalid,
  adaptor_capability_unsupported, adaptor_profile_misconfigured, checkpoint_not_bound,
  governance_range_not_complete, trigger_not_authorized, governance_subject_not_manifest,
  checkpoint_signature_invalid, key_not_bound, witness_cosignature_invalid, witness_key_not_trusted,
  witness_not_declared, witness_identity_mismatch, checkpoint_unwitnessed,
  entry_index_beyond_checkpoint, inclusion_path_invalid, consistency_path_invalid,
  genesis_anchor_mismatch, governance_chain_invalid, manifest_schema_invalid,
  rotation_proof_invalid, canonicalization_unsupported, canonicalization_failed,
  media_type_presence_invalid, claim_descriptor_mismatch, format_conflict,
  envelope_signature_invalid, producer_key_not_carried, governance_rotation_unverifiable,
  assurance_mismatch, record_subject_mismatch, subject_manifest_presence,
  subject_manifest_binding_invalid, embedded_ordering_violation, embedded_subject_mismatch,
  embedded_claim_type_mismatch, claim_material_missing, claim_material_path_invalid,
  content_binding_mismatch, dataset_key_not_held, competing_range_insufficient, range_proof_invalid,
  tree_material_invalid, closure_mismatch, governance_state_not_current, ahl,
}
use ahl_core.Receipt.Recorded.{leo}

pub class_failing : (error : ReceiptError) → leo unverifiable (class error) ≡ true
unfolding class
class_failing (malformed _) = refl
class_failing (unsupported_version _ _ _) = refl
class_failing (limit_exceeded _) = refl
class_failing (budget_exhausted _ _) = refl
class_failing (identifier_mismatch _) = refl
class_failing (adaptor_unknown _) = refl
class_failing (adaptor_hash_mismatch _) = refl
class_failing (adaptor_binding_invalid _ _) = refl
class_failing (adaptor_capability_unsupported _ _) = refl
class_failing (adaptor_profile_misconfigured _ _) = refl
class_failing (checkpoint_not_bound _ _) = refl
class_failing (governance_range_not_complete _ _ _) = refl
class_failing (trigger_not_authorized _ _ _) = refl
class_failing (governance_subject_not_manifest _) = refl
class_failing checkpoint_signature_invalid = refl
class_failing (key_not_bound _ _) = refl
class_failing (witness_cosignature_invalid _) = refl
class_failing (witness_key_not_trusted _) = refl
class_failing (witness_not_declared _ _) = refl
class_failing (witness_identity_mismatch _ _ _) = refl
class_failing (checkpoint_unwitnessed _) = refl
class_failing (entry_index_beyond_checkpoint _ _) = refl
class_failing (inclusion_path_invalid _) = refl
class_failing consistency_path_invalid = refl
class_failing genesis_anchor_mismatch = refl
class_failing (governance_chain_invalid _) = refl
class_failing (manifest_schema_invalid _ _) = refl
class_failing (rotation_proof_invalid _ _) = refl
class_failing (canonicalization_unsupported _ _) = refl
class_failing (canonicalization_failed _ _ _) = refl
class_failing (media_type_presence_invalid _ _ _) = refl
class_failing (claim_descriptor_mismatch _ _ _ _) = refl
class_failing (format_conflict _ _) = refl
class_failing (envelope_signature_invalid _) = refl
class_failing (producer_key_not_carried _ _) = refl
class_failing (governance_rotation_unverifiable _) = refl
class_failing (assurance_mismatch _) = refl
class_failing (record_subject_mismatch _ _) = refl
class_failing (subject_manifest_presence _) = refl
class_failing (subject_manifest_binding_invalid _) = refl
class_failing (embedded_ordering_violation _ _ _) = refl
class_failing (embedded_subject_mismatch _ _ _) = refl
class_failing (embedded_claim_type_mismatch _ _ _) = refl
class_failing (claim_material_missing _ _) = refl
class_failing (claim_material_path_invalid _) = refl
class_failing (content_binding_mismatch _ _ _) = refl
class_failing (dataset_key_not_held _) = refl
class_failing (competing_range_insufficient _ _ _ _) = refl
class_failing (range_proof_invalid _ _) = refl
class_failing (tree_material_invalid _ _) = refl
class_failing (closure_mismatch _) = refl
class_failing (governance_state_not_current _ _ _) = refl
class_failing (ahl _) = refl
