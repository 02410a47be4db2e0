-- ===== src/Receipt/Fields.antt =====
-- The accessors of receipt.rs, which turn absent or ill-typed members into rejections, and the
-- common payload fields of a carried statement.
use Prim.Native.String.{String}
use ahl_core.Prelude.{
  ℕ, ◌++◌, Bool, true, false, not, Option, none, some, List, [], ◌∷◌, Str, codes, str_eq,
  if◌then◌else◌, any,
}
use ahl_core.Error.{
  AhlError, Message, text, lit, Result, ok, err, ◌>>=◌, ◌>>◌, ok_or, map_err, reject_if,
}
use ahl_core.Json.{Json}
use ahl_core.Bitemporal.{Clock, valid_time_from_payload, parse_rfc3339}
use ahl_core.Receipt.Failure.{ReceiptError, malformed, unsupported_version}
use ahl_core.Receipt.Ending.{and_then}

abbrev pub ReceiptResult {ℓ} : Type ℓ → Type ℓ
ReceiptResult A = Result ReceiptError A

abbrev pub ahl_version : Str
ahl_version = codes "0.4"

-- `format!("`{path}` <kind>")`
abbrev pub ill_typed : Str → Str → ReceiptError
ill_typed path kind = malformed (text (codes "`") ∷ text path ∷ text (codes "` ") ∷ text kind ∷ [])

abbrev pub statement_types : List Str
statement_types =
    codes "ingestion"
    ∷ codes "derivation"
    ∷ codes "retraction"
    ∷ codes "correction"
    ∷ codes "propagation"
    ∷ codes "manifest"
    ∷ codes "key"
    ∷ []

-- The closure `invalid` of `common_payload_fields`.
abbrev pub invalid_member : Str → Message → ReceiptError
invalid_member member detail =
    malformed (text (codes "payload ") ∷ text member ∷ text (codes ": ") ∷ detail)

-- A section reference of the draft, in UTF-8.
abbrev pub section : String → Str
section number = 194 ∷ 167 ∷ codes number

abbrev pub must_be_string : Message
must_be_string =
    lit (codes "the member is REQUIRED and MUST be a string (I-D " ++ section "2.2" ++ codes ")")

abbrev pub manifest_required : ReceiptError
manifest_required = invalid_member (codes "manifest") (
    lit (
      codes "the member is REQUIRED, and MUST be a string, except on a manifest statement (I-D "
      ++ section "2.2"
      ++ codes ")"))

abbrev pub is_some {ℓ} : {A : Type ℓ} → Option A → Bool
is_some none = false
is_some (some _) = true

-- `Option::filter`
abbrev pub filter_option {ℓ} : {A : Type ℓ} → (A → Bool) → Option A → Option A
filter_option p none = none
filter_option p (some a) = if p a then some a else none

module _ (json : Json) where
  open json use {Value, get, as_str, as_bool, as_u64, as_array, is_object}

  unfoldable pub obj : Value → Str → ReceiptResult Value
  obj value path =
      ok_or (filter_option is_object (get value path)) (ill_typed path (codes "object"))

  -- `text`
  unfoldable pub text_at : Value → Str → ReceiptResult Str
  text_at value path = ok_or (and_then (get value path) as_str) (ill_typed path (codes "string"))

  unfoldable pub number : Value → Str → ReceiptResult ℕ
  number value path = ok_or (and_then (get value path) as_u64) (ill_typed path (codes "integer"))

  unfoldable pub flag : Value → Str → ReceiptResult Bool
  flag value path = ok_or (and_then (get value path) as_bool) (ill_typed path (codes "boolean"))

  unfoldable pub array : Value → Str → ReceiptResult (List Value)
  array value path = ok_or (and_then (get value path) as_array) (ill_typed path (codes "array"))

  -- The `collect` of `path_strings`: the first element that is no string ends it.
  unfoldable pub collect_strings : Str → List Value → ReceiptResult (List Str)
  collect_strings path [] = ok []
  collect_strings path (v ∷ vs) = ok_or (as_str v) (ill_typed path (codes "element")) >>= λ s.
      collect_strings path vs >>= λ rest. ok (s ∷ rest)

  unfoldable pub path_strings : Value → Str → ReceiptResult (List Str)
  path_strings value path = array value path >>= λ vs. collect_strings path vs

  unfoldable pub payload_of : Value → ReceiptResult Value
  payload_of envelope = obj envelope (codes "payload")

  unfoldable pub statement_type : Value → ReceiptResult Str
  statement_type payload = text_at payload (codes "type")

  unfoldable pub statement_type_literal : Value → Option Str
  statement_type_literal envelope =
      and_then (and_then (get envelope (codes "payload")) (λ p. get p (codes "type"))) as_str

  unfoldable pub check_ahl_version : Value → ReceiptResult (Unit {0})
  check_ahl_version payload = elim (and_then (get payload (codes "ahl_version")) as_str) [
    | none ↦ err (malformed (lit (codes "statement payload missing `ahl_version`")))
    | some got ↦
        if str_eq got ahl_version
        then ok tt
        else err (unsupported_version (codes "ahl_version") ahl_version (lit got))
  ]

  -- The match on the kind and on the `manifest` member.
  unfoldable pub manifest_member : Str → Option Value → ReceiptResult (Unit {0})
  manifest_member kind (some value) =
      if str_eq kind (codes "manifest")
      then err (
          invalid_member (codes "manifest") (
            lit (
              codes "MUST be absent on a manifest statement (I-D "
              ++ section "2.2"
              ++ codes ", "
              ++ section "2.4.5"
              ++ codes ")")))
      else if is_some (as_str value)
      then ok tt
      else err manifest_required
  manifest_member kind none =
      if str_eq kind (codes "manifest") then ok tt else err manifest_required

  -- `Display` of `AhlError` is generated by the crate thiserror.
  module _ (clock : Clock) (to_string : AhlError → Str) where
    abbrev pub rejected_member : Str → AhlError → ReceiptError
    rejected_member member source = invalid_member member (lit (to_string source))

    unfoldable pub common_payload_fields : Value → ReceiptResult (Unit {0})
    common_payload_fields payload =
        ok_or (and_then (get payload (codes "type")) as_str) (
          invalid_member (codes "type")
            (lit (codes "the member is REQUIRED (I-D " ++ section "2.2" ++ codes ")")))
        >>= λ kind.
            reject_if (not (any (str_eq kind) statement_types)) (
              invalid_member (codes "type") (
                lit (
                  codes "not one of the seven defined statement types (I-D "
                  ++ section "2.3"
                  ++ codes ")")))
            >> (reject_if (not (is_some (and_then (get payload (codes "producer")) as_str)))
                  (invalid_member (codes "producer") must_be_string)
                >> (manifest_member kind (get payload (codes "manifest"))
                    >> (map_err (rejected_member (codes "valid_time"))
                          (valid_time_from_payload json clock payload)
                        >>= λ valid_time.
                            ok_or (and_then (get payload (codes "issued_at")) as_str)
                              (invalid_member (codes "issued_at") must_be_string)
                            >>= λ issued_at.
                                map_err (rejected_member (codes "issued_at"))
                                  (parse_rfc3339 json clock (codes "payload.issued_at") issued_at)
                                >>= λ at. ok tt)))
