-- ===== src/Checkpoint/Tests.antt =====
-- A checkpoint with its blob (src/lib.rs), and the theorems on it.
use ahl_core.Prelude.{
  ℕ, ◌≡◌, ◌↔◌, refl, true, Option, none, some, ◌++◌, Bytes, Str, codes, str_eq, strip_prefix?, all,
  leb, if◌then◌else◌, arith,
}
use ahl_core.Prelude.Words.{is_octet}
use ahl_core.Error.{ok}
use ahl_core.Json.Toy.{Tree, t_str, t_num, t_obj, f_end, f_item, field, toy_json}
use ahl_core.Base64.Toy.{toy_base64, toy_base64-IsStandard}
use ahl_core.Merkle.{Hash}
use ahl_core.Bitemporal.{Clock, parse_rfc3339}
use ahl_core.RangeProof.{checked_add}
use ahl_core.RangeProof.Codec.{checked_mul}
use ahl_core.Checkpoint.{
  UnixTime, atl_checkpoint_blob, is_nanos_rendering, atl_checkpoint_time_nanos, digest_of,
  atl_checkpoint_blob_from_json, reconcile_atl_checkpoint_raw,
}
use ahl_core.Checkpoint.Blob.{atl_checkpoint_blob_injective}
use ahl_core.Checkpoint.Reconciled.{IsFraming, reconcile_atl_checkpoint_raw_iff}

-- Every time is five seconds after the epoch.
abbrev clock : Clock
clock = record { Instant = ℕ; le = leb; parse = λ s. ok 5 }

abbrev unix : UnixTime clock
unix = record { seconds = λ at. some at; nanosecond = λ at. 7 }

abbrev unhex : Str → Option Bytes
unhex s = if all is_octet s then some s else none

unhex-octets : (s : Str) (bytes : Bytes) → unhex s ≡ some bytes → all is_octet bytes ≡ true
unhex-octets s bytes e = ground arith

abbrev origin : Hash
origin = codes "0123456789abcdef0123456789abcdef"

abbrev root : Hash
root = codes "fedcba9876543210fedcba9876543210"

abbrev checkpoint : Tree
checkpoint = t_obj (
    f_item (codes "log_id") (t_str (codes "sha256:" ++ origin)) (
      f_item (codes "tree_size") (t_num 3) (
        f_item (codes "checkpoint_time") (t_str (codes "1970-01-01T00:00:05.000000007Z"))
          (f_item (codes "root_hash") (t_str root) f_end))))

abbrev size : ℕ
size = 3

abbrev at : ℕ
at = 5000000007

abbrev blob : Bytes
blob = atl_checkpoint_blob origin 3 5000000007 root

from-json : atl_checkpoint_blob_from_json toy_json clock unix unhex checkpoint ≡ ok blob
unfolding atl_checkpoint_blob_from_json atl_checkpoint_time_nanos is_nanos_rendering digest_of
    parse_rfc3339 checked_mul checked_add field str_eq strip_prefix? atl_checkpoint_blob
from-json = refl

reconcile_atl_checkpoint_raw_iff_example :
    (reconcile_atl_checkpoint_raw toy_json clock unix unhex toy_base64 checkpoint
        (codes "base64:" ++ blob)
      ≡ ok tt)
    ↔ IsFraming toy_base64
        (atl_checkpoint_blob_from_json toy_json clock unix unhex checkpoint)
        (codes "base64:" ++ blob)
reconcile_atl_checkpoint_raw_iff_example =
    reconcile_atl_checkpoint_raw_iff toy_json clock unix unhex unhex-octets toy_base64
      toy_base64-IsStandard checkpoint (codes "base64:" ++ blob)

reconciled :
    reconcile_atl_checkpoint_raw toy_json clock unix unhex toy_base64 checkpoint
      (codes "base64:" ++ blob)
    ≡ ok tt
reconciled =
    (reconcile_atl_checkpoint_raw_iff toy_json clock unix unhex unhex-octets toy_base64
        toy_base64-IsStandard checkpoint (codes "base64:" ++ blob)).1
      (record { blob = blob; is_assembled = from-json; is_rendered = refl })

atl_checkpoint_blob_injective_example :
    (origin ≡ origin) × (size ≡ size) × (at ≡ at) × (root ≡ root)
atl_checkpoint_blob_injective_example =
    atl_checkpoint_blob_injective origin origin root root size size at at refl refl (omega arith)
      (omega arith) (omega arith) (omega arith) refl
