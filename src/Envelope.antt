-- ===== src/Envelope.antt =====
-- Signed statement envelopes (src/lib.rs: `decode_pubkey`, `verify_signature`, `check_envelope`,
-- `verify_envelope`). Ed25519 and base64 are crates.
pub mod Sentence
pub mod Signed
mod Tests
use ahl_core.Prelude.{
  Bool, true, false, not, Option, none, some, List, [], ◌∷◌, Bytes, Str, codes, length, ◌==◌,
  if◌then◌else◌,
}
use ahl_core.Error.{
  field, lit, base64, bad_length, public_key, Result, ok, err, AhlResult, ◌>>=◌, ◌>>◌, ok_or,
  map_err, reject_if,
}
use ahl_core.Json.{Json}
use ahl_core.Base64.{Base64, strip}
use ahl_core.Tree.{field_str}
use ahl_core.Closure.{payload_of, array_member}

-- What the source takes from the crate ed25519_dalek: a key read from its 32 bytes, where an error
-- is the text that it renders to, and whether a signature of 64 bytes over a message verifies.
pub record Ed25519 : Type 1 where
  pub VerifyingKey : Type 0
  pub as_bytes : VerifyingKey → Bytes
  pub from_bytes : Bytes → Result Str VerifyingKey
  pub verifies : VerifyingKey → Bytes → Bytes → Bool

pub data EnvelopeCheck : Type 0 where
  verified signature_invalid : EnvelopeCheck
  key_not_resolved : Str → EnvelopeCheck

-- What the loop has found after its last entry.
abbrev pub remembered : Option Str → EnvelopeCheck
remembered none = verified
remembered (some key_id) = key_not_resolved key_id

-- `unresolved.get_or_insert_with(...)`
abbrev pub get_or_insert : Option Str → Str → Option Str
get_or_insert none key_id = some key_id
get_or_insert (some first) key_id = some first

abbrev pub is_verified : EnvelopeCheck → Bool
is_verified verified = true
is_verified _ = false

module _ (b64 : Base64) (ed : Ed25519) where
  open ed use {VerifyingKey, from_bytes, verifies}

  unfoldable pub decode_pubkey : Str → AhlResult VerifyingKey
  decode_pubkey pubkey = strip pubkey (codes "base64:") >>= λ encoded.
      map_err base64 (b64.decode encoded) >>= λ raw.
      reject_if (not (length raw == 32)) (bad_length (codes "ed25519 public key") 32 (length raw))
      >> map_err public_key (from_bytes raw)

  unfoldable pub verify_signature : VerifyingKey → Bytes → Str → AhlResult Bool
  verify_signature key msg signature = strip signature (codes "base64:") >>= λ encoded.
      map_err base64 (b64.decode encoded) >>= λ raw.
      reject_if (not (length raw == 64)) (bad_length (codes "ed25519 signature") 64 (length raw))
      >> ok (verifies key msg raw)

  module _ (json : Json) (resolve : Str → Option Str) where
    open json use {Value, get, jcs}

    -- The loop over the signature entries.
    unfoldable pub sweep : Bytes → Option Str → List Value → AhlResult EnvelopeCheck
    sweep msg unresolved [] = ok (remembered unresolved)
    sweep msg unresolved (entry ∷ rest) = field_str json entry (codes "key_id") >>= λ key_id.
        field_str json entry (codes "sig") >>= λ sig. elim (resolve key_id) [
          | none ↦ sweep msg (get_or_insert unresolved key_id) rest
          | some pubkey ↦ decode_pubkey pubkey >>= λ key. verify_signature key msg sig >>= λ valid.
              elim valid [ true ↦ sweep msg unresolved rest | false ↦ ok signature_invalid ]
        ]

    abbrev pub sweep_some : Bytes → List Value → AhlResult EnvelopeCheck
    sweep_some msg [] = ok signature_invalid
    sweep_some msg (entry ∷ rest) = sweep msg none (entry ∷ rest)

    unfoldable pub check_envelope : Value → AhlResult EnvelopeCheck
    check_envelope env = ok_or (payload_of json env) (field (lit (codes "payload"))) >>= λ payload.
        ok_or (array_member json (get env (codes "signatures"))) (field (lit (codes "signatures")))
        >>= λ signatures. sweep_some (jcs payload) signatures

    unfoldable pub verify_envelope : Value → AhlResult Bool
    verify_envelope env = check_envelope env >>= λ check. ok (is_verified check)
