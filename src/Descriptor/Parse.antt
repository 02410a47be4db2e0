-- ===== src/Descriptor/Parse.antt =====
-- The media-type parser of src/descriptor.rs against a printer.
use ahl_core.Prelude.{
  ℕ, zero, suc, ◌≤◌, Bool, true, false, ◌&&◌, List, [], ◌∷◌, ◌++◌, Str, ◌≡◌, refl, ltb, ◌==◌, arith,
  all, length, length-append, strip_prefix?,
}
use ahl_core.Error.{ok}
use ahl_core.Descriptor.{
  is_tchar, skip_ows, ParsedMediaType, parse_param, parse_name, parse_value, parse_type,
  parse_subtype, parse_params, parse_media_type,
}
use ahl_core.Descriptor.Tokens.{is_token, stops, take_token-append, skip_ows-token, all-ascii}

-- A media type without optional whitespace.
abbrev pub print_param : Str × Str → Str → Str
print_param p rest = 59 ∷ p.0 ++ (61 ∷ p.1 ++ rest)

abbrev pub print_params : List (Str × Str) → Str
print_params [] = []
print_params (p ∷ ps) = print_param p (print_params ps)

abbrev pub print : ParsedMediaType → Str
print m = m.type_ ++ (47 ∷ m.subtype ++ print_params m.params)

abbrev pub are_tokens : List (Str × Str) → Bool
are_tokens ps = all (λ p. is_token p.0 && is_token p.1) ps

abbrev pub is_media : ParsedMediaType → Bool
is_media m = (is_token m.type_ && is_token m.subtype) && are_tokens m.params

pub tchars : (s : Str) → is_token s ≡ true → all is_tchar s ≡ true
tchars s e = ground arith

pub non_empty : (s : Str) → is_token s ≡ true → (length s == 0) ≡ false
non_empty s e = ground arith

pub and_left : (a b : Bool) → a && b ≡ true → a ≡ true
and_left a b e = ground arith

pub and_right : (a b : Bool) → a && b ≡ true → b ≡ true
and_right a b e = ground arith

pub name_token :
    (p : Str × Str) (ps : List (Str × Str)) → are_tokens (p ∷ ps) ≡ true → is_token p.0 ≡ true
name_token p ps h =
    and_left (is_token p.0) (is_token p.1)
      (and_left (is_token p.0 && is_token p.1) (are_tokens ps) h)

pub value_token :
    (p : Str × Str) (ps : List (Str × Str)) → are_tokens (p ∷ ps) ≡ true → is_token p.1 ≡ true
value_token p ps h =
    and_right (is_token p.0) (is_token p.1)
      (and_left (is_token p.0 && is_token p.1) (are_tokens ps) h)

pub rest_tokens :
    (p : Str × Str) (ps : List (Str × Str)) → are_tokens (p ∷ ps) ≡ true → are_tokens ps ≡ true
rest_tokens p ps h = and_right (is_token p.0 && is_token p.1) (are_tokens ps) h

module _ (m : ParsedMediaType) (h : is_media m ≡ true) where
  types : is_token m.type_ && is_token m.subtype ≡ true
  types = and_left (is_token m.type_ && is_token m.subtype) (are_tokens m.params) h

  pub type_token : is_token m.type_ ≡ true
  type_token = and_left (is_token m.type_) (is_token m.subtype) types

  pub subtype_token : is_token m.subtype ≡ true
  subtype_token = and_right (is_token m.type_) (is_token m.subtype) types

  pub params_tokens : are_tokens m.params ≡ true
  params_tokens = and_right (is_token m.type_ && is_token m.subtype) (are_tokens m.params) h

fits : (s : Str) → length s ≤ length s
fits s = omega arith

stops-semicolon : (s : Str) → stops (59 ∷ s) ≡ true
unfolding is_tchar
stops-semicolon s = refl

stops-equals : (s : Str) → stops (61 ∷ s) ≡ true
unfolding is_tchar
stops-equals s = refl

stops-slash : (s : Str) → stops (47 ∷ s) ≡ true
unfolding is_tchar
stops-slash s = refl

stops-params : (ps : List (Str × Str)) → stops (print_params ps) ≡ true
stops-params [] = refl
stops-params (p ∷ ps) = stops-semicolon (p.0 ++ (61 ∷ p.1 ++ print_params ps))

pub parse_param-print :
    (n v s : Str)
    → is_token n ≡ true
    → is_token v ≡ true
    → stops s ≡ true
    → parse_param (print_param (n, v) s) ≡ ok ((n, v), s)
unfolding parse_param parse_name parse_value strip_prefix? skip_ows
parse_param-print n v s hn hv hs =
    rw
      (
        skip_ows-token n (61 ∷ v ++ s) hn,
        take_token-append n (61 ∷ v ++ s) (tchars n hn) (stops-equals (v ++ s)),
        non_empty n hn,
        take_token-append v s (tchars v hv) hs,
        non_empty v hv,
      )
      refl

print_params-shrinks :
    (p : Str × Str) (ps : List (Str × Str)) (fuel : ℕ)
    → length (print_params (p ∷ ps)) ≤ suc fuel
    → length (print_params ps) ≤ fuel
print_params-shrinks p ps fuel enough = omega (
  arith,
  enough,
  length-append p.0 (61 ∷ p.1 ++ print_params ps),
  length-append p.1 (print_params ps),
)

pub parse_params-print :
    (fuel : ℕ) (ps : List (Str × Str))
    → are_tokens ps ≡ true
    → length (print_params ps) ≤ fuel
    → parse_params fuel (print_params ps) ≡ ok ps
unfolding parse_params
parse_params-print fuel [] h enough = refl
parse_params-print zero (p ∷ ps) h enough = ground arith
parse_params-print (suc fuel) (p ∷ ps) h enough =
    rw
      (
        parse_param-print p.0 p.1 (print_params ps) (name_token p ps h) (value_token p ps h)
            (stops-params ps),
        parse_params-print fuel ps (rest_tokens p ps h) (print_params-shrinks p ps fuel enough),
      )
      refl

ascii-append :
    (s t : Str)
    → all (λ b. ltb b 128) s ≡ true
    → all (λ b. ltb b 128) t ≡ true
    → all (λ b. ltb b 128) (s ++ t) ≡ true
ascii-append [] t hs ht = ht
ascii-append (b ∷ s) t hs ht = ground (arith, ascii-append s t)

token-ascii : (s : Str) → is_token s ≡ true → all (λ b. ltb b 128) s ≡ true
token-ascii s h = all-ascii s (tchars s h)

params-ascii :
    (ps : List (Str × Str)) → are_tokens ps ≡ true → all (λ b. ltb b 128) (print_params ps) ≡ true
params-ascii [] h = refl
params-ascii (p ∷ ps) h =
    ascii-append p.0 (61 ∷ p.1 ++ print_params ps) (token-ascii p.0 (name_token p ps h)) (
      ascii-append p.1 (print_params ps) (token-ascii p.1 (value_token p ps h))
        (params-ascii ps (rest_tokens p ps h)))

-- Parsing what is printed gives the media type back, where its parts are non-empty tokens.
pub parse_media_type-print :
    (m : ParsedMediaType) → is_media m ≡ true → parse_media_type (print m) ≡ ok m
unfolding parse_media_type parse_type parse_subtype strip_prefix?
parse_media_type-print m h =
    let type_h = type_token m h in
    let subtype_h = subtype_token m h in
    let params_h = params_tokens m h in
    rw
      (
        ascii-append m.type_ (47 ∷ m.subtype ++ print_params m.params) (token-ascii m.type_ type_h)
            (ascii-append m.subtype (print_params m.params) (token-ascii m.subtype subtype_h)
              (params-ascii m.params params_h)),
        take_token-append m.type_ (47 ∷ m.subtype ++ print_params m.params) (tchars m.type_ type_h)
            (stops-slash (m.subtype ++ print_params m.params)),
        non_empty m.type_ type_h,
        take_token-append m.subtype (print_params m.params) (tchars m.subtype subtype_h)
            (stops-params m.params),
        non_empty m.subtype subtype_h,
        parse_params-print (length (print_params m.params)) m.params params_h
            (fits (print_params m.params)),
      )
      refl
