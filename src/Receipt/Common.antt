-- ===== src/Receipt/Common.antt =====
-- What `common_payload_fields` of receipt.rs accepts.
use ahl_core.Prelude.{
  Bool, true, false, not, ◌&&◌, Option, none, some, Str, codes, str_eq, ◌≡◌, ◌↔◌, refl, any, arith,
}
use ahl_core.Error.{
  AhlError, ok, bind-eq-ok, then-eq-ok, ok_or-eq-ok, reject_if-eq-ok, map_err-eq-ok,
}
use ahl_core.Json.{Json}
use ahl_core.Bitemporal.{Clock, ValidTime, valid_time_from_payload, parse_rfc3339}
use ahl_core.Receipt.Ending.{and_then}
use ahl_core.Receipt.Fields.{statement_types, is_some, manifest_member, common_payload_fields}

module _ (json : Json) (clock : Clock) (to_string : AhlError → Str) where
  open json use {Value, get, as_str}

  -- `manifest` is absent on a manifest statement and a string on every other.
  abbrev pub is_manifest_shape : Str → Option Value → Bool
  is_manifest_shape kind none = str_eq kind (codes "manifest")
  is_manifest_shape kind (some value) =
      not (str_eq kind (codes "manifest")) && is_some (as_str value)

  -- The common fields of I-D section 2.2 are present and well formed.
  abbrev pub IsCommon : Value → Type 0
  IsCommon payload =
      (kind : Str) × (and_then (get payload (codes "type")) as_str ≡ some kind)
      × (any (str_eq kind) statement_types ≡ true)
      × (is_some (and_then (get payload (codes "producer")) as_str) ≡ true)
      × (is_manifest_shape kind (get payload (codes "manifest")) ≡ true)
      × ((at : ValidTime clock.Instant) × (valid_time_from_payload json clock payload ≡ ok at))
      × (issued : Str) × (and_then (get payload (codes "issued_at")) as_str ≡ some issued)
      × (at : clock.Instant) × (parse_rfc3339 json clock (codes "payload.issued_at") issued ≡ ok at)

  shape-ok :
      (kind : Str) (m : Option Value)
      → manifest_member json kind m ≡ ok tt
      → is_manifest_shape kind m ≡ true
  unfolding manifest_member
  shape-ok kind none e = ground arith
  shape-ok kind (some value) e = ground arith

  ok-shape :
      (kind : Str) (m : Option Value)
      → is_manifest_shape kind m ≡ true
      → manifest_member json kind m ≡ ok tt
  unfolding manifest_member
  ok-shape kind none e = ground arith
  ok-shape kind (some value) e = ground arith

  not-false : (b : Bool) → not b ≡ false → b ≡ true
  not-false true e = refl
  not-false false e = cc

  accepted :
      (payload : Value)
      → common_payload_fields json clock to_string payload ≡ ok tt
      → IsCommon payload
  unfolding common_payload_fields
  accepted payload e =
      let (kind, has_kind, e1) = bind-eq-ok _ _ e in
      let (known, e2) = then-eq-ok _ _ e1 in
      let (producer, e3) = then-eq-ok _ _ e2 in
      let (manifest, e4) = then-eq-ok _ _ e3 in
      let (vt, valid, e5) = bind-eq-ok _ _ e4 in
      let (issued, has_issued, e6) = bind-eq-ok _ _ e5 in
      let (at, parsed, e7) = bind-eq-ok _ _ e6 in
      (
        kind,
        ok_or-eq-ok _ _ has_kind,
        not-false _ (reject_if-eq-ok _ _ known),
        not-false _ (reject_if-eq-ok _ _ producer),
        shape-ok kind (get payload (codes "manifest")) manifest,
        (vt, map_err-eq-ok _ _ valid),
        issued,
        ok_or-eq-ok _ _ has_issued,
        at,
        map_err-eq-ok _ _ parsed,
      )

  accepts :
      (payload : Value)
      → IsCommon payload
      → common_payload_fields json clock to_string payload ≡ ok tt
  unfolding common_payload_fields
  accepts payload
        (kind, has_kind, known, producer, shape, (vt, valid), issued, has_issued, at, parsed) =
      rw (has_kind, known, producer, ok-shape kind _ shape, valid, has_issued, parsed) refl

  -- `common_payload_fields` accepts a payload exactly when the common fields of I-D section 2.2 are
  -- present and well formed: a known type, a string producer, `manifest` absent on a manifest
  -- statement and a string on every other, a valid time that reads, and an `issued_at` that parses.
  pub common_payload_fields_iff :
      (payload : Value)
      → (common_payload_fields json clock to_string payload ≡ ok tt) ↔ IsCommon payload
  common_payload_fields_iff payload = (accepted payload, accepts payload)
