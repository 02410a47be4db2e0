-- ===== src/Governance/Schema.antt =====
-- The schema of producer key objects (src/receipt.rs: `is_family_hash`, `is_family_base64`,
-- `recompute_producer_key_id`, `producer_key_objects`, `key_objects`).
use Prim.Native.String.{String}
use ahl_core.Prelude.{
  ℕ, suc, Bool, true, false, not, ◌&&◌, ◌||◌, Option, none, some, List, [], ◌∷◌, ◌++◌, Bytes, Str,
  codes, str_eq, strip_prefix?, length, ◌==◌, all, find,
}
use ahl_core.Error.{
  text, num, lit, Result, ok, err, AhlResult, ◌>>=◌, ◌>>◌, ok_or, map_err, reject_if,
}
use ahl_core.Json.{Json}
use ahl_core.Base64.{Base64}
use ahl_core.Merkle.{Hash}
use ahl_core.Tree.{is_hex}
use ahl_core.Commitment.{sha256_hex}
use ahl_core.Envelope.{Ed25519, decode_pubkey}
use ahl_core.Receipt.Ending.{and_then}
use ahl_core.Receipt.Failure.{ReceiptError, manifest_schema_invalid}
use ahl_core.Receipt.Fields.{ReceiptResult, array, section, is_some}

unfoldable pub is_family_hash : Str → Bool
is_family_hash value = elim (strip_prefix? value (codes "sha256:")) [
  | some hex ↦ (length hex == 64) && all is_hex hex
  | none ↦ false
]

abbrev is_ok {ι ℓ} : {E : Type ι} {A : Type ℓ} → Result E A → Bool
is_ok (ok _) = true
is_ok (err _) = false

unfoldable pub is_family_base64 : Base64 → Str → Bool
is_family_base64 b64 value = elim (strip_prefix? value (codes "base64:")) [
  | some body ↦ is_ok (b64.decode body)
  | none ↦ false
]

-- The closure `invalid` of the two readers.
abbrev pub invalid_key : ℕ → Str → Str → ReceiptError
invalid_key index member detail =
    manifest_schema_invalid
      (text (codes "keys[") ∷ num index ∷ text (codes "].") ∷ text member ∷ []) (lit detail)

-- A section of the draft or of the core specification, in UTF-8.
abbrev draft : String → Str
draft number = codes "(I-D " ++ (section number ++ codes ")")

abbrev spec : String → Str
spec number = codes "(spec " ++ (section number ++ codes ")")

-- An em dash, in UTF-8.
abbrev dash : Str
dash = 226 ∷ 128 ∷ 148 ∷ []

abbrev not_family_hash : Str
not_family_hash = codes "not a `sha256:` family string in lowercase hex"

abbrev is_allowed : Str → Bool
is_allowed member = str_eq member (codes "key_id") || str_eq member (codes "pubkey")

module _ (json : Json) (b64 : Base64) (ed : Ed25519) (sha256 : Bytes → Hash)
    (hex : Bytes → Str) where
  open json use {Value, get, as_str, as_u64, member_names}

  unfoldable pub recompute_producer_key_id : Str → AhlResult Str
  recompute_producer_key_id pubkey =
      decode_pubkey b64 ed pubkey >>= λ key. ok (sha256_hex sha256 hex (ed.as_bytes key))

  abbrev str_at : Value → Str → Option Str
  str_at object member = and_then (get object member) as_str

  -- The rule that an extra member breaks.
  abbrev check_members : ℕ → List Str → ReceiptResult (Unit {0})
  check_members index names = elim (find (λ member. not (is_allowed member)) names) [
    | some extra ↦ err (
        invalid_key index extra (
          codes "a producer key object carries `key_id` and `pubkey` ONLY "
          ++ (dash
              ++ (codes " any other member, `valid_from_index` included, is a schema failure "
                  ++ draft "6.2"))))
    | none ↦ ok tt
  ]

  -- One producer key object.
  unfoldable pub producer_key_object : ℕ → Value → ReceiptResult (Str × Str)
  producer_key_object index object =
      ok_or (member_names object)
        (invalid_key index [] (codes "a producer key object MUST be an object " ++ draft "6.2"))
      >>= λ names.
          check_members index names
          >> (ok_or (str_at object (codes "key_id")) (
                invalid_key index (codes "key_id") (codes "the member is REQUIRED " ++ draft "6.2"))
              >>= λ key_id.
                  reject_if (not (is_family_hash key_id))
                    (invalid_key index (codes "key_id") not_family_hash)
                  >> (ok_or (str_at object (codes "pubkey")) (
                        invalid_key index (codes "pubkey")
                          (codes "the member is REQUIRED " ++ draft "6.2"))
                      >>= λ pubkey.
                          map_err
                            (λ _.
                              invalid_key index (codes "pubkey")
                                (codes "does not decode to exactly 32 octets " ++ draft "6.2"))
                            (recompute_producer_key_id pubkey)
                          >>= λ recomputed.
                              reject_if (not (str_eq recomputed key_id)) (
                                invalid_key index (codes "key_id")
                                  (codes "does not equal `sha256:`-of-`pubkey` " ++ draft "6.2"))
                              >> ok (key_id, pubkey)))

  unfoldable pub producer_key_objects_from : ℕ → List Value → ReceiptResult (List (Str × Str))
  producer_key_objects_from index [] = ok []
  producer_key_objects_from index (object ∷ rest) = producer_key_object index object >>= λ key.
      producer_key_objects_from (suc index) rest >>= λ later. ok (key ∷ later)

  unfoldable pub producer_key_objects : Value → ReceiptResult (List (Str × Str))
  producer_key_objects container =
      array json container (codes "keys") >>= λ objects. producer_key_objects_from 0 objects

  -- One log or witness key object.
  unfoldable pub key_object : ℕ → Value → ReceiptResult (Str × Str)
  key_object index object =
      ok_or (str_at object (codes "key_id"))
        (invalid_key index (codes "key_id") (codes "the member is REQUIRED " ++ spec "7.2"))
      >>= λ key_id.
          reject_if (not (is_family_hash key_id))
            (invalid_key index (codes "key_id") not_family_hash)
          >> (ok_or (str_at object (codes "pubkey"))
                (invalid_key index (codes "pubkey") (codes "the member is REQUIRED " ++ spec "7.2"))
              >>= λ pubkey.
                  reject_if (not (is_family_base64 b64 pubkey)) (
                    invalid_key index (codes "pubkey") (
                      codes "not a `base64:` family string under the strict acceptance rule "
                      ++ draft "2.1"))
                  >> (reject_if
                        (not (is_some (and_then (get object (codes "valid_from_index")) as_u64)))
                        (invalid_key index (codes "valid_from_index") (
                          codes "not an entry index (spec "
                          ++ (section "7.2" ++ (codes ", " ++ (section "7.3" ++ codes ")")))))
                      >> ok (key_id, pubkey)))

  unfoldable pub key_objects_from : ℕ → List Value → ReceiptResult (List (Str × Str))
  key_objects_from index [] = ok []
  key_objects_from index (object ∷ rest) = key_object index object >>= λ key.
      key_objects_from (suc index) rest >>= λ later. ok (key ∷ later)

  unfoldable pub key_objects : Value → ReceiptResult (List (Str × Str))
  key_objects container =
      array json container (codes "keys") >>= λ objects. key_objects_from 0 objects
