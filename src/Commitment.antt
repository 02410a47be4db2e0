-- ===== src/Commitment.antt =====
-- Identifiers and record commitments (src/lib.rs: `sha256_hex`, `statement_id`, `entry_id`,
-- `commitment_input`, `commit_plain`, `commit_keyed`). SHA-256, HMAC, hex and JCS are crates; an HMAC
-- key is a function from messages to tags, or no function where the crate refuses the key.
pub mod Injective
mod Tests
use ahl_core.Prelude.{
  Bool, true, false, Option, none, some, List, [], ◌∷◌, ◌++◌, Bytes, Str, codes, length,
}
use ahl_core.Error.{bad_length, field, lit, Result, ok, err, AhlResult, ◌>>=◌, ◌>>◌, ok_or}
use ahl_core.Json.{Json}
use ahl_core.Merkle.{Hash}
use ahl_core.Descriptor.{validate_dataset_id}
use ahl_core.Closure.{payload_of}

-- `DATASET_SEPARATOR`
abbrev pub dataset_separator : Bytes
dataset_separator = 0x1F ∷ []

unfoldable pub commitment_input : Str → Hash → Bytes → AhlResult Bytes
commitment_input dataset ddig canonical =
    validate_dataset_id dataset
    >> ok (dataset ++ (dataset_separator ++ (ddig ++ (dataset_separator ++ canonical))))

module _ (sha256 : Bytes → Hash) (hex : Bytes → Str) where
  unfoldable pub sha256_hex : Bytes → Str
  sha256_hex bytes = codes "sha256:" ++ hex (sha256 bytes)

  unfoldable pub commit_plain : Str → Hash → Bytes → AhlResult Str
  commit_plain dataset ddig canonical =
      commitment_input dataset ddig canonical >>= λ input. ok (sha256_hex input)

  -- `envelope.get("payload").filter(|p| p.is_object())` is `payload_of` of src/closure.rs.
  unfoldable pub statement_id : (json : Json) → json.Value → AhlResult Str
  statement_id json envelope =
      ok_or (payload_of json envelope) (field (lit (codes "payload"))) >>= λ payload.
      ok (sha256_hex (json.jcs payload))

  unfoldable pub entry_id : (json : Json) → json.Value → Str
  entry_id json envelope = sha256_hex (json.jcs envelope)

unfoldable pub commit_keyed :
    (hmac : Bytes → Option (Bytes → Hash)) (hex : Bytes → Str)
    → Bytes
    → Str
    → Hash
    → Bytes
    → AhlResult Str
commit_keyed hmac hex key dataset ddig canonical =
    ok_or (hmac key) (bad_length (codes "hmac dataset key") 32 (length key)) >>= λ tag.
    commitment_input dataset ddig canonical >>= λ input.
    ok (codes "hmac-sha256:" ++ hex (tag input))
