-- ===== src/Receipt/Failure.antt =====
-- `ReceiptError` (receipt.rs): the reasons for which a receipt is rejected, the value that each
-- produces, and the assertion to which it belongs outside a run.
-- A `String` is a `Message` (see Error); a `&'static str` is its text.
use ahl_core.Prelude.{ℕ, Str, codes, str_eq, if◌then◌else◌}
use ahl_core.Error.{Message, AhlError}
use ahl_core.Receipt.Outcome.{
  Outcome, unverifiable, invalid, Assertion, versions, resource_limits, structure, adaptor_profile,
  anchoring, governance, checkpoint_authentication, witnesses, envelope_validity, cross_field,
  claim_material, content_binding,
}

pub data ReceiptError : Type 0 where
  malformed : Message → ReceiptError
  unsupported_version : Str → Str → Message → ReceiptError
  limit_exceeded : Str → ReceiptError
  budget_exhausted : Str → ℕ → ReceiptError
  identifier_mismatch : Str → ReceiptError
  adaptor_unknown : Message → ReceiptError
  adaptor_hash_mismatch : Message → ReceiptError
  adaptor_binding_invalid : Message → Message → ReceiptError
  adaptor_capability_unsupported : Message → Str → ReceiptError
  adaptor_profile_misconfigured : Message → Str → ReceiptError
  checkpoint_not_bound : Str → Message → ReceiptError
  governance_range_not_complete : ℕ → ℕ → ℕ → ReceiptError
  trigger_not_authorized : ℕ → Message → Message → ReceiptError
  governance_subject_not_manifest : Message → ReceiptError
  checkpoint_signature_invalid : ReceiptError
  key_not_bound : Message → ℕ → ReceiptError
  witness_cosignature_invalid : Message → ReceiptError
  witness_key_not_trusted : Message → ReceiptError
  witness_not_declared : Message → ℕ → ReceiptError
  witness_identity_mismatch : Message → Message → Message → ReceiptError
  checkpoint_unwitnessed : ℕ → ReceiptError
  entry_index_beyond_checkpoint : ℕ → ℕ → ReceiptError
  inclusion_path_invalid : Str → ReceiptError
  consistency_path_invalid : ReceiptError
  genesis_anchor_mismatch : ReceiptError
  governance_chain_invalid : Message → ReceiptError
  manifest_schema_invalid : Message → Message → ReceiptError
  rotation_proof_invalid : ℕ → Message → ReceiptError
  canonicalization_unsupported : Message → Message → ReceiptError
  canonicalization_failed : Message → Message → Message → ReceiptError
  media_type_presence_invalid : Message → Message → Str → ReceiptError
  claim_descriptor_mismatch : Message → Message → Message → Message → ReceiptError
  format_conflict : Str → Str → ReceiptError
  envelope_signature_invalid : ℕ → ReceiptError
  producer_key_not_carried : ℕ → Message → ReceiptError
  governance_rotation_unverifiable : ℕ → ReceiptError
  assurance_mismatch : Str → ReceiptError
  record_subject_mismatch : Message → Message → ReceiptError
  subject_manifest_presence : Message → ReceiptError
  subject_manifest_binding_invalid : Message → ReceiptError
  embedded_ordering_violation : Str → ℕ → ℕ → ReceiptError
  embedded_subject_mismatch : Str → Message → Message → ReceiptError
  embedded_claim_type_mismatch : Str → Str → Message → ReceiptError
  claim_material_missing : Message → Str → ReceiptError
  claim_material_path_invalid : Str → ReceiptError
  content_binding_mismatch : Message → Message → Message → ReceiptError
  dataset_key_not_held : Message → ReceiptError
  competing_range_insufficient : ℕ → ℕ → ℕ → ℕ → ReceiptError
  range_proof_invalid : Str → Message → ReceiptError
  tree_material_invalid : Message → Message → ReceiptError
  closure_mismatch : Message → ReceiptError
  governance_state_not_current : ℕ → ℕ → Message → ReceiptError
  ahl : AhlError → ReceiptError

unfoldable pub class : ReceiptError → Outcome
class (malformed _) = invalid
class (unsupported_version _ _ _) = unverifiable
class (limit_exceeded _) = invalid
class (budget_exhausted _ _) = unverifiable
class (identifier_mismatch _) = invalid
class (adaptor_unknown _) = unverifiable
class (adaptor_hash_mismatch _) = invalid
class (adaptor_binding_invalid _ _) = invalid
class (adaptor_capability_unsupported _ _) = unverifiable
class (adaptor_profile_misconfigured _ _) = unverifiable
class (checkpoint_not_bound _ _) = invalid
class (governance_range_not_complete _ _ _) = invalid
class (trigger_not_authorized _ _ _) = invalid
class (governance_subject_not_manifest _) = invalid
class checkpoint_signature_invalid = invalid
class (key_not_bound _ _) = invalid
class (witness_cosignature_invalid _) = invalid
class (witness_key_not_trusted _) = unverifiable
class (witness_not_declared _ _) = invalid
class (witness_identity_mismatch _ _ _) = invalid
class (checkpoint_unwitnessed _) = invalid
class (entry_index_beyond_checkpoint _ _) = invalid
class (inclusion_path_invalid _) = invalid
class consistency_path_invalid = invalid
class genesis_anchor_mismatch = unverifiable
class (governance_chain_invalid _) = invalid
class (manifest_schema_invalid _ _) = invalid
class (rotation_proof_invalid _ _) = invalid
class (canonicalization_unsupported _ _) = unverifiable
class (canonicalization_failed _ _ _) = invalid
class (media_type_presence_invalid _ _ _) = invalid
class (claim_descriptor_mismatch _ _ _ _) = invalid
class (format_conflict _ _) = invalid
class (envelope_signature_invalid _) = invalid
class (producer_key_not_carried _ _) = unverifiable
class (governance_rotation_unverifiable _) = unverifiable
class (assurance_mismatch _) = invalid
class (record_subject_mismatch _ _) = invalid
class (subject_manifest_presence _) = invalid
class (subject_manifest_binding_invalid _) = invalid
class (embedded_ordering_violation _ _ _) = invalid
class (embedded_subject_mismatch _ _ _) = invalid
class (embedded_claim_type_mismatch _ _ _) = invalid
class (claim_material_missing _ _) = invalid
class (claim_material_path_invalid _) = invalid
class (content_binding_mismatch _ _ _) = invalid
class (dataset_key_not_held _) = unverifiable
class (competing_range_insufficient _ _ _ _) = invalid
class (range_proof_invalid _ _) = invalid
class (tree_material_invalid _ _) = invalid
class (closure_mismatch _) = invalid
class (governance_state_not_current _ _ _) = invalid
class (ahl _) = invalid

unfoldable pub assertion : ReceiptError → Assertion
assertion (malformed _) = structure
assertion (unsupported_version _ _ _) = versions
assertion (limit_exceeded _) = structure
assertion (budget_exhausted _ _) = resource_limits
assertion (identifier_mismatch _) = structure
assertion (adaptor_unknown _) = adaptor_profile
assertion (adaptor_hash_mismatch _) = adaptor_profile
assertion (adaptor_binding_invalid _ _) = adaptor_profile
assertion (adaptor_capability_unsupported _ _) = adaptor_profile
assertion (adaptor_profile_misconfigured _ _) = adaptor_profile
assertion (checkpoint_not_bound _ _) = claim_material
assertion (governance_range_not_complete _ _ _) = governance
assertion (trigger_not_authorized _ _ _) = claim_material
assertion (governance_subject_not_manifest _) = claim_material
assertion checkpoint_signature_invalid = checkpoint_authentication
assertion (key_not_bound _ _) = governance
assertion (witness_cosignature_invalid _) = witnesses
assertion (witness_key_not_trusted _) = witnesses
assertion (witness_not_declared _ _) = witnesses
assertion (witness_identity_mismatch _ _ _) = witnesses
assertion (checkpoint_unwitnessed _) = witnesses
assertion (entry_index_beyond_checkpoint _ _) = anchoring
assertion (inclusion_path_invalid _) = anchoring
assertion consistency_path_invalid = anchoring
assertion genesis_anchor_mismatch = governance
assertion (governance_chain_invalid _) = governance
assertion (manifest_schema_invalid _ _) = governance
assertion (rotation_proof_invalid _ _) = governance
assertion (canonicalization_unsupported _ _) = content_binding
assertion (canonicalization_failed _ _ _) = content_binding
assertion (media_type_presence_invalid _ _ _) = content_binding
assertion (claim_descriptor_mismatch _ _ _ _) = content_binding
assertion (format_conflict _ _) = governance
assertion (envelope_signature_invalid _) = envelope_validity
assertion (producer_key_not_carried _ _) = envelope_validity
assertion (governance_rotation_unverifiable _) = governance
assertion (assurance_mismatch _) = cross_field
assertion (record_subject_mismatch _ _) = cross_field
assertion (subject_manifest_presence _) = cross_field
assertion (subject_manifest_binding_invalid _) = cross_field
assertion (embedded_ordering_violation _ _ _) = cross_field
assertion (embedded_subject_mismatch _ _ _) = cross_field
assertion (embedded_claim_type_mismatch _ _ _) = claim_material
assertion (claim_material_missing _ _) = claim_material
assertion (claim_material_path_invalid _) = claim_material
assertion (content_binding_mismatch _ _ _) = content_binding
assertion (dataset_key_not_held _) = content_binding
assertion (competing_range_insufficient _ _ _ _) = claim_material
assertion (range_proof_invalid what _) =
    if str_eq what (codes "governance") then governance else claim_material
assertion (tree_material_invalid _ _) = claim_material
assertion (closure_mismatch _) = claim_material
assertion (governance_state_not_current _ _ _) = claim_material
assertion (ahl _) = structure
