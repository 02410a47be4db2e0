-- ===== src/Descriptor.antt =====
-- src/descriptor.rs: dataset identifiers, canonicalization identifiers, the media-type production
-- and the canonicalization descriptor. A `&str` is the list of its UTF-8 bytes.
pub mod Tokens
pub mod Parse
pub mod Accepted
pub mod Normal
pub mod Identifiers
mod Tests
use ahl_core.Prelude.{
  ℕ, zero, suc, ◌+◌, Bool, true, false, not, ◌&&◌, ◌||◌, Option, none, some, List, [], ◌∷◌, ◌++◌,
  Str, Bytes, codes, str_eq, strip_prefix?, leb, ltb, ◌==◌, if◌then◌else◌, any, all, map, length,
  Ordering,
}
use ahl_core.Prelude.Order.{Ord, nat_ord, list_ord, sort_by}
use ahl_core.Error.{
  AhlError, dataset_id_syntax, dataset_id_control_octet, canonicalization_identifier_syntax,
  media_type_syntax, media_type_duplicate_param, out_of_fuel, Result, ok, err, AhlResult, ◌>>=◌,
  ◌>>◌, ok_or, map_err, reject_if,
}
use ahl_core.Json.{Json}
use ahl_core.Merkle.{Hash}

-- `(low..=high).contains(&b)`
abbrev pub within : ℕ → ℕ → ℕ → Bool
within low high b = leb low b && leb b high

unfoldable pub validate_dataset_id_syntax : Str → AhlResult (Unit {0})
validate_dataset_id_syntax id =
    if within 1 128 (length id) && all (within 0x21 0x7E) id
    then ok tt
    else err (dataset_id_syntax id)

abbrev pub is_control : ℕ → Bool
is_control b = leb b 0x1F || b == 0x7F

unfoldable pub reject_dataset_id_control_octets : Str → AhlResult (Unit {0})
reject_dataset_id_control_octets id =
    if any is_control id then err (dataset_id_control_octet id) else ok tt

unfoldable pub validate_dataset_id : Str → AhlResult (Unit {0})
validate_dataset_id id = reject_dataset_id_control_octets id >> validate_dataset_id_syntax id

abbrev pub is_lower : ℕ → Bool
is_lower b = within 97 122 b

abbrev pub is_upper : ℕ → Bool
is_upper b = within 65 90 b

abbrev pub is_digit : ℕ → Bool
is_digit b = within 48 57 b

abbrev pub starts_lower : Str → Bool
starts_lower [] = false
starts_lower (b ∷ _) = is_lower b

unfoldable pub validate_canonicalization_identifier : Str → AhlResult (Unit {0})
validate_canonicalization_identifier id =
    if within 1 64 (length id)
      && (all (λ b. is_lower b || is_digit b || b == 45) id && starts_lower id)
    then ok tt
    else err (canonicalization_identifier_syntax id)

-- The punctuation among the token characters.
abbrev pub tchar_marks : Str
tchar_marks = codes "!#$%&'*+-.^_`|~"

unfoldable pub is_tchar : ℕ → Bool
is_tchar b = is_lower b || is_upper b || is_digit b || any (λ c. b == c) tchar_marks

unfoldable pub take_token : Str → Str × Str
take_token [] = ([], [])
take_token (b ∷ s) =
    let later = take_token s in if is_tchar b then (b ∷ later.0, later.1) else ([], b ∷ s)

unfoldable pub skip_ows : Str → Str
skip_ows [] = []
skip_ows (b ∷ s) = let later = skip_ows s in if b == 32 || b == 9 then later else b ∷ s

pub record ParsedMediaType : Type 0 where
  pub type_ : Str
  pub subtype : Str
  pub params : List (Str × Str)

-- The error of the parser: a detail, or none where the fuel of its loop is spent.
abbrev pub ParseResult {ℓ} : Type ℓ → Type ℓ
ParseResult A = Result (Option Str) A

abbrev pub expect : Option Str → Str → ParseResult Str
expect found detail = ok_or found (some detail)

abbrev pub semicolon : Str → ParseResult Str
semicolon rest =
    expect (strip_prefix? (skip_ows rest) (codes ";"))
      (codes "expected `;` before the next parameter")

abbrev pub equals : Str → ParseResult Str
equals tail = expect (strip_prefix? tail (codes "=")) (codes "a parameter must be `name=value`")

abbrev pub reject_empty_value : Str → ParseResult (Unit {0})
reject_empty_value value = reject_if (length value == 0) (
    some (
      codes "a parameter value must be a non-empty token "
      ++ 226 ∷ 128 ∷ 148 ∷ codes " quoted-string values are not permitted"))

abbrev pub reject_empty_name : Str → ParseResult (Unit {0})
reject_empty_name name =
    reject_if (length name == 0) (some (codes "a parameter name must be a non-empty token"))

-- One turn of the loop, the parameter and what is left: after the name, after the semicolon, whole.
unfoldable pub parse_value : Str → Str → ParseResult ((Str × Str) × Str)
parse_value name tail =
    let value = take_token tail in reject_empty_value value.0 >> ok ((name, value.0), value.1)

unfoldable pub parse_name : Str → ParseResult ((Str × Str) × Str)
parse_name rest =
    let name = take_token (skip_ows rest) in
    reject_empty_name name.0 >> (equals name.1 >>= parse_value name.0)

unfoldable pub parse_param : Str → ParseResult ((Str × Str) × Str)
parse_param rest = semicolon rest >>= parse_name

unfoldable pub parse_params : ℕ → Str → ParseResult (List (Str × Str))
parse_params fuel [] = ok []
parse_params zero (b ∷ rest) = err none
parse_params (suc fuel) (b ∷ rest) =
    parse_param (b ∷ rest) >>= λ found. parse_params fuel found.1 >>= λ later. ok (found.0 ∷ later)

abbrev pub media_type_of : Str → Str → List (Str × Str) → ParseResult ParsedMediaType
media_type_of type_ subtype params = ok record { type_ = type_; subtype = subtype; params = params }

abbrev pub slash : Str → ParseResult Str
slash rest =
    expect (strip_prefix? rest (codes "/")) (codes "`type` and `subtype` must be separated by `/`")

-- After the slash, after the check on the characters, and whole.
unfoldable pub parse_subtype : Str → Str → ParseResult ParsedMediaType
parse_subtype type_ rest =
    let subtype = take_token rest in
    reject_if (length subtype.0 == 0) (some (codes "`subtype` must be a non-empty token"))
    >> (parse_params (length subtype.1) subtype.1 >>= media_type_of type_ subtype.0)

unfoldable pub parse_type : Str → ParseResult ParsedMediaType
parse_type input =
    let type_ = take_token input in
    reject_if (length type_.0 == 0) (some (codes "`type` must be a non-empty token"))
    >> (slash type_.1 >>= parse_subtype type_.0)

unfoldable pub parse_media_type : Str → ParseResult ParsedMediaType
parse_media_type input =
    reject_if (not (all (λ b. ltb b 128) input)) (some (codes "every character must be US-ASCII"))
    >> parse_type input

-- `to_ascii_lowercase`
abbrev pub lower : ℕ → ℕ
lower b = if is_upper b then b + 32 else b

abbrev pub to_ascii_lowercase : Str → Str
to_ascii_lowercase s = map lower s

abbrev pub cmp_param : Str × Str → Str × Str → Ordering
cmp_param a b = Ord.cmp (list_ord {A = ℕ}) a.0 b.0

-- The first name that stands twice in a row.
unfoldable pub first_tie : List (Str × Str) → Option Str
first_tie [] = none
first_tie (p ∷ []) = none
first_tie (p ∷ q ∷ rest) =
    let later = first_tie (q ∷ rest) in if str_eq p.0 q.0 then some p.0 else later

unfoldable pub render_param : Str × Str → Str
render_param p =
    codes ";"
    ++ p.0
    ++ codes "="
    ++ (if str_eq p.0 (codes "charset") then to_ascii_lowercase p.1 else p.1)

unfoldable pub render_params : List (Str × Str) → Str
render_params [] = []
render_params (p ∷ rest) = render_param p ++ render_params rest

abbrev pub parse_failure : Str → Option Str → AhlError
parse_failure raw (some detail) = media_type_syntax raw detail
parse_failure raw none = out_of_fuel

-- The parameters with their names lowercased, in the order of the names.
unfoldable pub sorted_params : ParsedMediaType → List (Str × Str)
sorted_params parsed = sort_by cmp_param (map (λ p. (to_ascii_lowercase p.0, p.1)) parsed.params)

abbrev pub reject_tie : Str → Option Str → AhlResult (Unit {0})
reject_tie raw (some param) = err (media_type_duplicate_param raw param)
reject_tie raw none = ok tt

unfoldable pub validate_media_type_production : Str → AhlResult Str
validate_media_type_production raw =
    map_err (parse_failure raw) (parse_media_type raw) >>= λ parsed.
    let params = sorted_params parsed in
    reject_tie raw (first_tie params)
    >> ok (
        to_ascii_lowercase parsed.type_
        ++ codes "/"
        ++ to_ascii_lowercase parsed.subtype
        ++ render_params params)

unfoldable pub media_type_required : Str → Option Bool
media_type_required identifier =
    if str_eq identifier (codes "jcs")
    then some false
    else if str_eq identifier (codes "exact-bytes")
    then some true
    else none

pub record CanonicalizationDescriptor : Type 0 where
  pub canonicalization : Str
  pub media_type : Option Str

-- `media_type.map(validate_media_type_production).transpose()`
unfoldable pub normalize_optional : Option Str → AhlResult (Option Str)
normalize_optional none = ok none
normalize_optional (some mt) = validate_media_type_production mt >>= λ n. ok (some n)

-- `CanonicalizationDescriptor::new`
unfoldable pub new_descriptor : Str → Option Str → AhlResult CanonicalizationDescriptor
new_descriptor canonicalization media_type =
    validate_canonicalization_identifier canonicalization
    >> (normalize_optional media_type >>= λ normalized.
        ok record { canonicalization = canonicalization; media_type = normalized })

-- SHA-256 is the crate sha2's.
module _ (json : Json) (sha256 : Bytes → Hash) where
  abbrev pub media_type_member : Option Str → List (Str × json.Value)
  media_type_member none = []
  media_type_member (some mt) = (codes "media_type", json.string mt) ∷ []

  unfoldable pub canonical_bytes : CanonicalizationDescriptor → Bytes
  canonical_bytes d = json.jcs (
      json.object (
        (codes "canonicalization", json.string d.canonicalization)
        ∷ media_type_member d.media_type))

  unfoldable pub ddig : CanonicalizationDescriptor → Hash
  ddig d = sha256 (canonical_bytes d)
