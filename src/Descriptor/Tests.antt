-- ===== src/Descriptor/Tests.antt =====
-- Runs of src/descriptor.rs on small inputs, and the theorems at concrete inputs.
use ahl_core.Prelude.{str_eq, true, [], ◌∷◌, codes, strip_prefix?, ◌≡◌, ◌↔◌, any, refl}
use ahl_core.Prelude.Order.{sort_by, insert_by}
use ahl_core.Error.{ok, err, dataset_id_control_octet}
use ahl_core.Descriptor.{
  is_tchar, take_token, skip_ows, ParsedMediaType, parse_value, parse_name, parse_param,
  parse_params, parse_subtype, parse_type, parse_media_type, validate_media_type_production,
  sorted_params, first_tie, render_params, render_param, validate_dataset_id, is_control,
}
use ahl_core.Descriptor.Parse.{print, is_media, parse_media_type-print}
use ahl_core.Descriptor.Normal.{validate_media_type_production-idempotent}
use ahl_core.Descriptor.Identifiers.{IsDatasetId, validate_dataset_id_iff}
use ahl_core.Descriptor.Accepted.{parse_media_type-tokens}

abbrev plain : ParsedMediaType
plain = record { type_ = codes "text"; subtype = codes "csv"; params = (codes "Q", codes "1") ∷ [] }

is_media-plain : is_media plain ≡ true
unfolding is_tchar
is_media-plain = refl

parse_media_type-print_example : parse_media_type (print plain) ≡ ok plain
parse_media_type-print_example = parse_media_type-print plain is_media-plain

-- Optional whitespace about the semicolon is skipped.
parse-spaced : parse_media_type (codes "text/csv ; Q=1") ≡ ok plain
unfolding is_tchar take_token skip_ows strip_prefix? parse_value parse_name parse_param parse_params
    parse_subtype parse_type parse_media_type
parse-spaced = refl

parse_media_type-tokens_example : is_media plain ≡ true
parse_media_type-tokens_example =
    parse_media_type-tokens (codes "text/csv ; Q=1") plain parse-spaced

normalizes : validate_media_type_production (codes "text/csv ; Q=1") ≡ ok (codes "text/csv;q=1")
unfolding is_tchar take_token skip_ows strip_prefix? parse_value parse_name parse_param parse_params
    parse_subtype parse_type parse_media_type validate_media_type_production sorted_params first_tie
    render_params render_param sort_by insert_by str_eq
normalizes = refl

validate_media_type_production-idempotent_example :
    validate_media_type_production (codes "text/csv;q=1") ≡ ok (codes "text/csv;q=1")
validate_media_type_production-idempotent_example =
    validate_media_type_production-idempotent (codes "text/csv ; Q=1") (codes "text/csv;q=1")
      normalizes

-- An identifier with a space: no control octet, but outside the production.
validate_dataset_id_iff_example :
    ((validate_dataset_id (codes "bad id") ≡ ok tt) ↔ IsDatasetId (codes "bad id"))
    × ((validate_dataset_id (codes "bad id") ≡ err (dataset_id_control_octet (codes "bad id")))
        ↔ (any is_control (codes "bad id") ≡ true))
validate_dataset_id_iff_example = validate_dataset_id_iff (codes "bad id")
