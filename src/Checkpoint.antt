-- ===== src/Checkpoint.antt =====
-- Checkpoints of the ATL-shaped adaptor profiles (src/lib.rs): the 98-byte blob that a log signs, its
-- assembly from the members of a checkpoint, and the carried `raw` framing. The crates hex, base64
-- and time are parameters.
pub mod Blob
pub mod Reconciled
pub mod Cosigned
mod Tests
use Prim.Native.String.{String}
use ahl_core.Prelude.{
  ℕ, ◌+◌, ◌*◌, Bool, true, false, not, ◌&&◌, ◌||◌, Option, none, some, List, [], ◌∷◌, ◌++◌, Bytes,
  Str, codes, str_eq, strip_prefix?, length, take, drop, all, leb, ◌==◌, if◌then◌else◌,
}
use ahl_core.Prelude.Words.{to_le}
use ahl_core.Error.{
  Message, text, lit, field, atl_checkpoint, Result, ok, err, AhlResult, ◌>>=◌, ◌>>◌, ok_or,
  map_err, reject_if,
}
use ahl_core.Json.{Json}
use ahl_core.Base64.{Base64}
use ahl_core.Merkle.{Hash}
use ahl_core.Bitemporal.{Clock, parse_rfc3339}
use ahl_core.RangeProof.{checked_add}
use ahl_core.RangeProof.Codec.{checked_mul}
use ahl_core.Tree.{str_member}
use ahl_core.Closure.{u64_member}

-- What the source takes from the crate time beyond `Clock`: the Unix timestamp of an instant in
-- seconds, where it is not negative, and the nanosecond within its second.
pub record UnixTime (clock : Clock) : Type 0 where
  pub seconds : clock.Instant → Option ℕ
  pub nanosecond : clock.Instant → ℕ

abbrev pub blob_magic : Bytes
blob_magic = codes "ATL-Protocol-v1-CP"

unfoldable pub atl_checkpoint_blob : Hash → ℕ → ℕ → Hash → Bytes
atl_checkpoint_blob origin tree_size timestamp_ns root =
    blob_magic ++ (origin ++ (to_le 8 tree_size ++ (to_le 8 timestamp_ns ++ root)))

abbrev is_digit : ℕ → Bool
is_digit b = leb 48 b && leb b 57

-- Exactly nine fractional-second digits, a literal `.` before them and a literal `Z` behind.
unfoldable pub is_nanos_rendering : Str → Bool
is_nanos_rendering value =
    (length value == 30)
    && (str_eq (take 1 (drop 19 value)) (codes ".")
        && (str_eq (drop 29 value) (codes "Z") && all is_digit (take 9 (drop 20 value))))

abbrev pub invalid_time : Str → Message
invalid_time value =
    text (codes "checkpoint_time `")
    ∷ text value
    ∷ text (
        codes "`: not the required rendering for an ATL-shaped checkpoint "
        ++ (226 ∷ 128 ∷ 148 ∷ codes " exactly nine fractional-second digits and a literal `Z`"))
    ∷ []

-- `checked_mul(1_000_000_000)` and then `checked_add(nanos)`.
abbrev pub nanos_of : Option ℕ → ℕ → Option ℕ
nanos_of none nanos = none
nanos_of (some s) nanos = checked_add s nanos

module _ (json : Json) (clock : Clock) (unix : UnixTime clock) where
  unfoldable pub atl_checkpoint_time_nanos : Str → AhlResult ℕ
  atl_checkpoint_time_nanos value =
      reject_if (not (is_nanos_rendering value)) (atl_checkpoint (invalid_time value))
      >> (map_err (λ _. atl_checkpoint (invalid_time value))
            (parse_rfc3339 json clock (codes "checkpoint_time") value)
          >>= λ parsed.
              ok_or (unix.seconds parsed) (atl_checkpoint (invalid_time value)) >>= λ seconds.
              ok_or (nanos_of (checked_mul seconds 1000000000) (unix.nanosecond parsed))
                (atl_checkpoint (invalid_time value)))

-- The closure `invalid` of `atl_checkpoint_blob_from_json`.
abbrev pub invalid_member : Str → Message
invalid_member detail = lit (codes "checkpoint: " ++ detail)

abbrev pub invalid_raw : Message → Message
invalid_raw detail = text (codes "raw: ") ∷ detail

-- `value.strip_prefix("sha256:").unwrap_or(value)`
abbrev pub unprefixed : Option Str → Str → Str
unprefixed (some rest) value = rest
unprefixed none value = value

-- Bytes of the length asked for: `<[u8; 32]>::try_from(bytes).ok()`.
abbrev pub of_length : ℕ → Option Bytes → Option Bytes
of_length n none = none
of_length n (some bytes) = if length bytes == n then some bytes else none

module _ (json : Json) (clock : Clock) (unix : UnixTime clock) (unhex : Str → Option Bytes) where
  open json use {Value, get}

  -- A digest of 32 octets in hex, with or without the prefix of its family.
  unfoldable pub digest_of : Str → Option Hash
  digest_of value = of_length 32 (unhex (unprefixed (strip_prefix? value (codes "sha256:")) value))

  unfoldable pub atl_checkpoint_blob_from_json : Value → AhlResult Bytes
  atl_checkpoint_blob_from_json checkpoint =
      ok_or (str_member json (get checkpoint (codes "log_id")))
        (atl_checkpoint (invalid_member (codes "`log_id` is REQUIRED")))
      >>= λ log_id.
          ok_or (digest_of log_id) (
            atl_checkpoint (
              invalid_member (
                codes
                  "`log_id` is not a `sha256:` family string in lowercase hex, so it is not an Origin ID an ATL-shaped checkpoint blob can carry")))
          >>= λ origin.
              ok_or (u64_member json (get checkpoint (codes "tree_size")))
                (atl_checkpoint (invalid_member (codes "`tree_size` is REQUIRED, an entry count")))
              >>= λ tree_size.
                  ok_or (str_member json (get checkpoint (codes "checkpoint_time")))
                    (atl_checkpoint (invalid_member (codes "`checkpoint_time` is REQUIRED")))
                  >>= λ checkpoint_time.
                      atl_checkpoint_time_nanos json clock unix checkpoint_time >>= λ timestamp_ns.
                      ok_or (str_member json (get checkpoint (codes "root_hash")))
                        (atl_checkpoint (invalid_member (codes "`root_hash` is REQUIRED")))
                      >>= λ root_hash.
                          ok_or (digest_of root_hash) (
                            atl_checkpoint (
                              invalid_member (
                                codes
                                  "`root_hash` is not a `sha256:` family string in lowercase hex, so it is not a root an ATL-shaped checkpoint blob can carry")))
                          >>= λ root. ok (atl_checkpoint_blob origin tree_size timestamp_ns root)

  -- The checks on the decoded `raw`.
  unfoldable pub check_raw : Bytes → AhlResult (Unit {0})
  check_raw carried =
      reject_if (not (length carried == 98)) (
        atl_checkpoint (
          invalid_raw (
            lit (
              codes
                "`raw` MUST decode to exactly 98 octets for an ATL-shaped checkpoint framing"))))
      >> reject_if (not (str_eq (take 18 carried) blob_magic))
          (atl_checkpoint (invalid_raw (lit (codes "`raw`'s magic is not `ATL-Protocol-v1-CP`"))))

  module _ (b64 : Base64) where
    unfoldable pub reconcile_atl_checkpoint_raw : Value → Str → AhlResult (Unit {0})
    reconcile_atl_checkpoint_raw checkpoint raw =
        ok_or (strip_prefix? raw (codes "base64:")) (
          atl_checkpoint (
            invalid_raw
              (lit (codes "`raw` MUST be `base64:<...>` for an ATL-shaped checkpoint framing"))))
        >>= λ encoded.
            map_err
              (λ source.
                atl_checkpoint (
                  invalid_raw
                    (text (codes "`raw` does not decode as base64: ") ∷ text source ∷ [])))
              (b64.decode encoded)
            >>= λ carried.
                check_raw carried
                >> (atl_checkpoint_blob_from_json checkpoint >>= λ assembled.
                    reject_if (not (str_eq carried assembled)) (
                      atl_checkpoint (
                        invalid_raw (
                          lit (
                            codes
                              "`raw` does not equal the blob assembled from the JSON checkpoint members "
                            ++ (226 ∷ 128 ∷ 148 ∷ codes " the JSON members govern"))))))
