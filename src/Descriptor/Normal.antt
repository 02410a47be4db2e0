-- ===== src/Descriptor/Normal.antt =====
-- The normal form of a media type (src/descriptor.rs, `validate_media_type_production`).
use mathlib.Core.List.{append_assoc}
use ahl_core.Prelude.{
  ℕ, Bool, true, ◌&&◌, Option, none, some, List, [], ◌∷◌, ◌++◌, Str, codes, str_eq, str_eq_refl,
  str_eq→eq, ◌≡◌, inl, inr, refl, sym, ap, ap₂, ◌∙◌, if◌then◌else◌, all, map, length-map,
  Bool-cases,
}
use ahl_core.Prelude.Order.{Ord, nat_ord, list_ord, swap, sort_by}
use ahl_core.Prelude.Sorted.{is_sorted, all-sort_by, sort_by-sorted, sorted-sort_by}
use ahl_core.Error.{AhlError, Result, ok, map_err, map_err-eq-ok, bind-eq-ok, then-eq-ok, ◌>>◌}
use ahl_core.Descriptor.{
  lower, to_ascii_lowercase, ParsedMediaType, parse_media_type, parse_failure, sorted_params,
  cmp_param, first_tie, reject_tie, render_param, render_params, validate_media_type_production,
}
use ahl_core.Descriptor.Tokens.{is_token, is_token-lower, map-lower-lower}
use ahl_core.Descriptor.Parse.{
  print, print_params, are_tokens, is_media, tchars, non_empty, and_left, and_right,
  parse_media_type-print, type_token, subtype_token, params_tokens, name_token, value_token,
  rest_tokens,
}
use ahl_core.Descriptor.Accepted.{both, accept, ok-injective, parse_media_type-tokens}

abbrev low : Str × Str → Str × Str
low p = (to_ascii_lowercase p.0, p.1)

-- The parameter as the normal form writes it.
abbrev canon : Str × Str → Str × Str
canon p = (p.0, if str_eq p.0 (codes "charset") then to_ascii_lowercase p.1 else p.1)

lower_token : (s : Str) → is_token s ≡ true → is_token (to_ascii_lowercase s) ≡ true
lower_token s h = rw (is_token-lower s (tchars s h), length-map lower s, non_empty s h) refl

low-tokens : (ps : List (Str × Str)) → are_tokens ps ≡ true → are_tokens (map low ps) ≡ true
low-tokens [] h = refl
low-tokens (p ∷ ps) h =
    rw (lower_token p.0 (name_token p ps h), value_token p ps h)
      (low-tokens ps (rest_tokens p ps h))

canon-token : (p : Str × Str) → is_token p.1 ≡ true → is_token (canon p).1 ≡ true
canon-token p h = elim (Bool-cases (str_eq p.0 (codes "charset"))) [
  | inl charset ↦ rw charset (lower_token p.1 h)
  | inr other ↦ rw other h
]

canon-tokens : (ps : List (Str × Str)) → are_tokens ps ≡ true → are_tokens (map canon ps) ≡ true
canon-tokens [] h = refl
canon-tokens (p ∷ ps) h =
    rw (name_token p ps h, canon-token p (value_token p ps h))
      (canon-tokens ps (rest_tokens p ps h))

glue : (c : ℕ) (a b rest : Str) → a ++ c ∷ [] ++ b ++ rest ≡ a ++ (c ∷ b ++ rest)
glue c a b rest = append_assoc (a ++ c ∷ []) b rest ∙ append_assoc a (c ∷ []) (b ++ rest)

render-print : (ps : List (Str × Str)) → render_params ps ≡ print_params (map canon ps)
unfolding render_params render_param
render-print [] = refl
render-print (p ∷ ps) =
    ap (λ s. 59 ∷ s)
      (glue 61 p.0 (canon p).1 (render_params ps)
        ∙ ap (λ s. p.0 ++ (61 ∷ (canon p).1 ++ s)) (render-print ps))

canon-canon : (p : Str × Str) → canon (canon p) ≡ canon p
canon-canon p = elim (Bool-cases (str_eq p.0 (codes "charset"))) [
  | inl charset ↦ rw (charset, map-lower-lower p.1) refl
  | inr other ↦ rw other refl
]

map-canon : (ps : List (Str × Str)) → map canon (map canon ps) ≡ map canon ps
map-canon [] = refl
map-canon (p ∷ ps) = ap₂ (λ x y. x ∷ y) (canon-canon p) (map-canon ps)

first_tie-canon : (ps : List (Str × Str)) → first_tie (map canon ps) ≡ first_tie ps
unfolding first_tie
first_tie-canon [] = refl
first_tie-canon (p ∷ []) = refl
first_tie-canon (p ∷ q ∷ ps) = rw (first_tie-canon (q ∷ ps)) refl

is_sorted-canon :
    (ps : List (Str × Str)) → is_sorted cmp_param (map canon ps) ≡ is_sorted cmp_param ps
is_sorted-canon [] = refl
is_sorted-canon (p ∷ []) = refl
is_sorted-canon (p ∷ q ∷ ps) = rw (is_sorted-canon (q ∷ ps)) refl

-- The names are in lower case.
abbrev is_low : Str × Str → Bool
is_low p = str_eq (to_ascii_lowercase p.0) p.0

all-low : (ps : List (Str × Str)) → all is_low (map low ps) ≡ true
all-low [] = refl
all-low (p ∷ ps) = rw (map-lower-lower p.0, str_eq_refl (to_ascii_lowercase p.0)) (all-low ps)

low-low : (ps : List (Str × Str)) → all is_low ps ≡ true → map low (map canon ps) ≡ map canon ps
low-low [] h = refl
low-low (p ∷ ps) h =
    ap₂ (λ n rest. (n, (canon p).1) ∷ rest) (str_eq→eq _ _ (and_left (is_low p) (all is_low ps) h))
      (low-low ps (and_right (is_low p) (all is_low ps) h))

cmp_param-swap : (a b : Str × Str) → cmp_param b a ≡ swap (cmp_param a b)
cmp_param-swap a b = Ord.cmp_swap (list_ord {A = ℕ}) a.0 b.0

-- The media type that the normal form of `m` prints.
abbrev normal : ParsedMediaType → ParsedMediaType
normal m = record {
  type_ = to_ascii_lowercase m.type_;
  subtype = to_ascii_lowercase m.subtype;
  params = map canon (sorted_params m);
}

module _ (m : ParsedMediaType) where
  normal-media : is_media m ≡ true → is_media (normal m) ≡ true
  unfolding sorted_params
  normal-media h =
      both _ _
        (both _ _ (lower_token m.type_ (type_token m h))
          (lower_token m.subtype (subtype_token m h)))
        (canon-tokens (sorted_params m) (
          all-sort_by cmp_param (λ p. is_token p.0 && is_token p.1) (map low m.params)
          ∙ low-tokens m.params (params_tokens m h)))

  sorted_params-normal : sorted_params (normal m) ≡ map canon (sorted_params m)
  unfolding sorted_params
  sorted_params-normal =
      ap (sort_by cmp_param) (
        low-low (sorted_params m)
          (all-sort_by cmp_param is_low (map low m.params) ∙ all-low m.params))
      ∙ sort_by-sorted cmp_param (map canon (sorted_params m)) (
          is_sorted-canon (sorted_params m)
          ∙ sorted-sort_by cmp_param cmp_param-swap (map low m.params))

  text : Str
  text =
      to_ascii_lowercase m.type_
      ++ codes "/"
      ++ to_ascii_lowercase m.subtype
      ++ render_params (sorted_params m)

  text-print : text ≡ print (normal m)
  unfolding text
  text-print =
      glue 47 (to_ascii_lowercase m.type_) (to_ascii_lowercase m.subtype)
        (render_params (sorted_params m))
      ∙ ap (λ s. to_ascii_lowercase m.type_ ++ (47 ∷ to_ascii_lowercase m.subtype ++ s))
          (render-print (sorted_params m))

render-canon : (ps : List (Str × Str)) → render_params (map canon ps) ≡ render_params ps
render-canon ps =
    render-print (map canon ps) ∙ ap print_params (map-canon ps) ∙ sym (render-print ps)

text-normal : (m : ParsedMediaType) → text (normal m) ≡ text m
unfolding text
text-normal m =
    rw
      (
        map-lower-lower m.type_,
        map-lower-lower m.subtype,
        sorted_params-normal m,
        render-canon (sorted_params m),
      )
      refl

-- The rest of the function after the parser.
finish : Str → ParsedMediaType → Result AhlError Str
finish raw m = reject_tie raw (first_tie (sorted_params m)) >> ok (text m)

reject_tie-ok : (raw : Str) (tie : Option Str) → reject_tie raw tie ≡ ok tt → tie ≡ none
reject_tie-ok raw none e = refl
reject_tie-ok raw (some p) e = cc

validate-finish :
    (raw : Str) (m : ParsedMediaType)
    → parse_media_type raw ≡ ok m
    → validate_media_type_production raw ≡ finish raw m
unfolding validate_media_type_production finish text
validate-finish raw m e = rw e refl

finish-normal :
    (raw : Str) (m : ParsedMediaType)
    → first_tie (sorted_params m) ≡ none
    → finish raw (normal m) ≡ ok (text m)
unfolding finish
finish-normal raw m e =
    rw (sorted_params-normal m, first_tie-canon (sorted_params m), e, text-normal m) refl

validate-text :
    (m : ParsedMediaType)
    → is_media m ≡ true
    → first_tie (sorted_params m) ≡ none
    → validate_media_type_production (text m) ≡ ok (text m)
validate-text m h e =
    validate-finish (text m) (normal m)
      (ap parse_media_type (text-print m) ∙ parse_media_type-print (normal m) (normal-media m h))
    ∙ finish-normal (text m) m e

-- The normal form of a media type is its own normal form: what `validate_media_type_production`
-- returns, it accepts, and returns unchanged.
pub validate_media_type_production-idempotent :
    (raw normalized : Str)
    → validate_media_type_production raw ≡ ok normalized
    → validate_media_type_production normalized ≡ ok normalized
unfolding validate_media_type_production finish text
validate_media_type_production-idempotent raw normalized e =
    let (m, h, e1) =
      bind-eq-ok (finish raw) (map_err (parse_failure raw) (parse_media_type raw)) e in
    let (g, e2) = then-eq-ok (reject_tie raw (first_tie (sorted_params m))) (accept (text m)) e1 in
    rw (sym (ok-injective (text m) normalized e2)) (
      validate-text m
        (parse_media_type-tokens raw m (map_err-eq-ok (parse_failure raw) (parse_media_type raw) h))
        (reject_tie-ok raw (first_tie (sorted_params m)) g))
