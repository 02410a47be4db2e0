-- ===== src/Descriptor/Identifiers.antt =====
-- Dataset identifiers of src/descriptor.rs.
use ahl_core.Prelude.{◌≤◌, true, false, [], ◌∷◌, Str, ◌≡◌, ◌↔◌, refl, arith, all, any, length}
use ahl_core.Error.{dataset_id_control_octet, ok, err}
use ahl_core.Descriptor.{
  within, is_control, validate_dataset_id, validate_dataset_id_syntax,
  reject_dataset_id_control_octets,
}

printable-control : (id : Str) → all (within 0x21 0x7E) id ≡ true → any is_control id ≡ false
printable-control [] e = refl
printable-control (b ∷ id) e = ground (arith, printable-control id)

abbrev pub IsDatasetId : Str → Type 0
IsDatasetId id = (1 ≤ length id) × (length id ≤ 128) × (all (within 0x21 0x7E) id ≡ true)

module _ (id : Str) where
  accepts : IsDatasetId id → validate_dataset_id id ≡ ok tt
  unfolding validate_dataset_id validate_dataset_id_syntax reject_dataset_id_control_octets
  accepts (low, high, printable) = rw (printable-control id printable, printable) (ground arith)

  accepted : validate_dataset_id id ≡ ok tt → IsDatasetId id
  unfolding validate_dataset_id validate_dataset_id_syntax reject_dataset_id_control_octets
  accepted e = (ground arith, ground arith, ground arith)

  control : any is_control id ≡ true → validate_dataset_id id ≡ err (dataset_id_control_octet id)
  unfolding validate_dataset_id reject_dataset_id_control_octets
  control e = rw e refl

  controlled : validate_dataset_id id ≡ err (dataset_id_control_octet id) → any is_control id ≡ true
  unfolding validate_dataset_id validate_dataset_id_syntax reject_dataset_id_control_octets
  controlled e = ground arith

  -- `validate_dataset_id` accepts exactly the identifiers of 1 to 128 octets from 0x21 to 0x7E, so
  -- its first check takes nothing from the production; and it reports a control octet exactly
  -- where there is one, whatever else is wrong with the identifier.
  pub validate_dataset_id_iff :
      ((validate_dataset_id id ≡ ok tt) ↔ IsDatasetId id)
      × ((validate_dataset_id id ≡ err (dataset_id_control_octet id)) ↔ (any is_control id ≡ true))
  validate_dataset_id_iff = ((accepted, accepts), (controlled, control))
