-- ===== src/Descriptor/Accepted.antt =====
-- What the media-type parser of src/descriptor.rs accepts, and that its loop ends.
use ahl_core.Prelude.{
  ℕ, zero, suc, Bool, true, false, ◌&&◌, some, List, [], ◌∷◌, Str, codes, ◌≡◌, refl, sym, ◌==◌,
  length,
}
use ahl_core.Error.{Result, ok, reject_if, ◌>>=◌, bind-eq-ok, then-eq-ok, reject_if-eq-ok}
use ahl_core.Descriptor.{
  take_token, skip_ows, ParsedMediaType, ParseResult, semicolon, equals, slash, reject_empty_name,
  reject_empty_value, media_type_of, parse_value, parse_name, parse_type, parse_subtype,
  parse_param, parse_params, parse_media_type,
}
use ahl_core.Descriptor.Tokens.{is_token, all-take_token}
use ahl_core.Descriptor.Parse.{are_tokens, is_media}

module _ {ℓ κ} {E : Type ℓ} {A : Type κ} where
  abbrev pub accept : A → Result E A
  accept a = ok a

  pub ok-injective : (a b : A) → accept a ≡ accept b → a ≡ b
  ok-injective a b e = cc

taken : (s : Str) → (length (take_token s).0 == 0) ≡ false → is_token (take_token s).0 ≡ true
taken s e = rw (all-take_token s, e) refl

pub both : (a b : Bool) → a ≡ true → b ≡ true → a && b ≡ true
both a b p q = rw (p, q) refl

parse_value-tokens :
    (name tail : Str) (x : (Str × Str) × Str)
    → is_token name ≡ true
    → parse_value name tail ≡ ok x
    → is_token x.0.0 && is_token x.0.1 ≡ true
unfolding parse_value
parse_value-tokens name tail x h e =
    let value = take_token tail in
    let (g, e1) = then-eq-ok (reject_empty_value value.0) (accept ((name, value.0), value.1)) e in
    rw (sym (ok-injective ((name, value.0), value.1) x e1))
      (both (is_token name) (is_token value.0) h (taken tail (reject_if-eq-ok _ _ g)))

parse_name-tokens :
    (s : Str) (x : (Str × Str) × Str)
    → parse_name s ≡ ok x
    → is_token x.0.0 && is_token x.0.1 ≡ true
unfolding parse_name
parse_name-tokens s x e =
    let name = take_token (skip_ows s) in
    let (g, e1) = then-eq-ok (reject_empty_name name.0) (equals name.1 >>= parse_value name.0) e in
    let (tail, h, e2) = bind-eq-ok (parse_value name.0) (equals name.1) e1 in
    parse_value-tokens name.0 tail x (taken (skip_ows s) (reject_if-eq-ok _ _ g)) e2

parse_param-tokens :
    (s : Str) (x : (Str × Str) × Str)
    → parse_param s ≡ ok x
    → is_token x.0.0 && is_token x.0.1 ≡ true
unfolding parse_param
parse_param-tokens s x e =
    let (r, h, e1) = bind-eq-ok parse_name (semicolon s) e in parse_name-tokens r x e1

abbrev cons_param : Str × Str → List (Str × Str) → ParseResult (List (Str × Str))
cons_param p later = ok (p ∷ later)

parse_params-tokens :
    (fuel : ℕ) (s : Str) (ps : List (Str × Str))
    → parse_params fuel s ≡ ok ps
    → are_tokens ps ≡ true
unfolding parse_params
parse_params-tokens fuel [] ps e = rw (sym (ok-injective [] ps e)) refl
parse_params-tokens zero (b ∷ s) ps e = cc
parse_params-tokens (suc fuel) (b ∷ s) ps e =
    let (x, h1, e1) =
      bind-eq-ok (λ found. parse_params fuel found.1 >>= cons_param found.0) (parse_param (b ∷ s))
        e in
    let (later, h2, e2) = bind-eq-ok (cons_param x.0) (parse_params fuel x.1) e1 in
    rw (sym (ok-injective (x.0 ∷ later) ps e2)) (
      both (is_token x.0.0 && is_token x.0.1) (are_tokens later) (parse_param-tokens (b ∷ s) x h1)
        (parse_params-tokens fuel x.1 later h2))

parse_subtype-tokens :
    (type_ s : Str) (m : ParsedMediaType)
    → is_token type_ ≡ true
    → parse_subtype type_ s ≡ ok m
    → is_media m ≡ true
unfolding parse_subtype
parse_subtype-tokens type_ s m h e =
    let subtype = take_token s in
    let (g, e1) =
      then-eq-ok
        (reject_if (length subtype.0 == 0) (some (codes "`subtype` must be a non-empty token")))
        (parse_params (length subtype.1) subtype.1 >>= media_type_of type_ subtype.0) e in
    let (ps, h1, e2) =
      bind-eq-ok (media_type_of type_ subtype.0) (parse_params (length subtype.1) subtype.1) e1 in
    rw (sym (ok-injective record { type_ = type_; subtype = subtype.0; params = ps } m e2)) (
      both (is_token type_ && is_token subtype.0) (are_tokens ps)
        (both (is_token type_) (is_token subtype.0) h (taken s (reject_if-eq-ok _ _ g)))
        (parse_params-tokens (length subtype.1) subtype.1 ps h1))

-- A media type that parses has a type, a subtype and parameters that are non-empty tokens.
pub parse_media_type-tokens :
    (s : Str) (m : ParsedMediaType) → parse_media_type s ≡ ok m → is_media m ≡ true
unfolding parse_media_type parse_type
parse_media_type-tokens s m e =
    let type_ = take_token s in
    let (g0, e0) = then-eq-ok _ (parse_type s) e in
    let (g1, e1) = then-eq-ok _ (slash type_.1 >>= parse_subtype type_.0) e0 in
    let (r, h1, e2) = bind-eq-ok (parse_subtype type_.0) (slash type_.1) e1 in
    parse_subtype-tokens type_.0 r m (taken s (reject_if-eq-ok _ _ g1)) e2
