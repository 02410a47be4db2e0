-- ===== src/Checkpoint/Reconciled.antt =====
-- The `raw` framings that `reconcile_atl_checkpoint_raw` (src/lib.rs) accepts.
use ahl_core.Prelude.{
  ◌≡◌, ◌↔◌, refl, sym, ap, ◌∙◌, Bool, true, false, not, Option, some, ◌++◌, Bytes, Str, codes,
  str_eq, str_eq→eq, str_eq_refl, strip_prefix?, strip_prefix?-append, strip_prefix?-eq_some,
  length, take, all, ◌==◌, arith,
}
use ahl_core.Prelude.Words.{is_octet}
use ahl_core.Error.{
  ok, AhlResult, ok_or, map_err, bind-eq-ok, then-eq-ok, ok_or-eq-ok, map_err-eq-ok,
  reject_if-eq-ok,
}
use ahl_core.Json.{Json}
use ahl_core.Base64.{Base64, IsStandard}
use ahl_core.Bitemporal.{Clock}
use ahl_core.Checkpoint.{
  UnixTime, blob_magic, atl_checkpoint_blob_from_json, check_raw, reconcile_atl_checkpoint_raw,
}
use ahl_core.Checkpoint.Blob.{is_blob, from_json_fits}

-- `raw` is the blob assembled from the members, in base64.
pub record IsFraming (b64 : Base64) (assembled : AhlResult Bytes) (raw : Str) : Type 0 where
  pub blob : Bytes
  pub is_assembled : assembled ≡ ok blob
  pub is_rendered : raw ≡ codes "base64:" ++ b64.encode blob

module _ (json : Json) (clock : Clock) (unix : UnixTime clock) (unhex : Str → Option Bytes)
    (octets : (s : Str) (bytes : Bytes) → unhex s ≡ some bytes → all is_octet bytes ≡ true)
    (b64 : Base64) (laws : IsStandard b64) where
  open json use {Value}

  abbrev assembled : Value → AhlResult Bytes
  assembled = atl_checkpoint_blob_from_json json clock unix unhex

  abbrev reconcile : Value → Str → AhlResult (Unit {0})
  reconcile = reconcile_atl_checkpoint_raw json clock unix unhex b64

  not-false : (b : Bool) → not b ≡ false → b ≡ true
  not-false true e = refl
  not-false false e = cc

  framed-reconcile :
      (checkpoint : Value) (raw : Str)
      → IsFraming b64 (assembled checkpoint) raw
      → reconcile checkpoint raw ≡ ok tt
  unfolding reconcile_atl_checkpoint_raw check_raw
  framed-reconcile checkpoint raw f =
      let (size, in_octets, magic) =
        blob_parts f.blob
          (from_json_fits json clock unix unhex octets checkpoint f.blob f.is_assembled) in
      rw
        (
          f.is_rendered,
          strip_prefix?-append (codes "base64:") (b64.encode f.blob),
          laws.decode-encode f.blob in_octets,
          size,
          magic,
          f.is_assembled,
          str_eq_refl f.blob,
        )
        refl
    where
      blob_parts :
          (b : Bytes)
          → is_blob b ≡ true
          → ((length b == 98) ≡ true)
            × (all is_octet b ≡ true)
            × (str_eq (take 18 b) blob_magic ≡ true)
      blob_parts b h = (ground arith, ground arith, ground arith)

  reconcile-framed :
      (checkpoint : Value) (raw : Str)
      → reconcile checkpoint raw ≡ ok tt
      → IsFraming b64 (assembled checkpoint) raw
  unfolding reconcile_atl_checkpoint_raw
  reconcile-framed checkpoint raw e =
      let (encoded, e1, r1) = bind-eq-ok _ (ok_or (strip_prefix? raw (codes "base64:")) _) e in
      let (carried, e2, r2) = bind-eq-ok _ (map_err _ (b64.decode encoded)) r1 in
      let (e3, r3) = then-eq-ok (check_raw json clock unix unhex carried) _ r2 in
      let (blob, e4, r4) = bind-eq-ok _ (assembled checkpoint) r3 in
      let same =
        str_eq→eq carried blob
          (not-false (str_eq carried blob) (reject_if-eq-ok (not (str_eq carried blob)) _ r4)) in
      record {
        blob = blob;
        is_assembled = e4;
        is_rendered =
            strip_prefix?-eq_some (codes "base64:") raw encoded
              (ok_or-eq-ok (strip_prefix? raw (codes "base64:")) _ e1)
            ∙ ap (λ s. codes "base64:" ++ s)
                (sym (laws.canonical encoded carried (map_err-eq-ok _ (b64.decode encoded) e2))
                  ∙ ap b64.encode same);
      }

  -- With an engine that decodes base64 canonically and hex that decodes to bytes, a carried `raw` is
  -- accepted exactly when the members of the checkpoint assemble to a blob and `raw` is that blob in
  -- base64: one framing for each checkpoint.
  pub reconcile_atl_checkpoint_raw_iff :
      (checkpoint : Value) (raw : Str)
      → (reconcile_atl_checkpoint_raw json clock unix unhex b64 checkpoint raw ≡ ok tt)
        ↔ IsFraming b64 (atl_checkpoint_blob_from_json json clock unix unhex checkpoint) raw
  reconcile_atl_checkpoint_raw_iff checkpoint raw =
      (reconcile-framed checkpoint raw, framed-reconcile checkpoint raw)
