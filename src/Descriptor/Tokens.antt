-- ===== src/Descriptor/Tokens.antt =====
-- Tokens of src/descriptor.rs: where `take_token` cuts.
use ahl_core.Prelude.{
  ℕ, ◌≤◌, Bool, true, false, not, ◌&&◌, ◌||◌, [], ◌∷◌, ◌++◌, Str, ◌≡◌, inl, inr, refl, ap₂, ltb,
  ◌==◌, arith, all, map, length, Bool-cases,
}
use ahl_core.Descriptor.{is_tchar, take_token, skip_ows, lower}

-- A non-empty run of token characters.
abbrev pub is_token : Str → Bool
is_token s = all is_tchar s && not (length s == 0)

-- The text does not go on with a token character.
abbrev pub stops : Str → Bool
stops [] = true
stops (b ∷ s) = not (is_tchar b)

pub take_token-append :
    (t s : Str) → all is_tchar t ≡ true → stops s ≡ true → take_token (t ++ s) ≡ (t, s)
unfolding take_token
take_token-append [] [] e h = refl
take_token-append [] (b ∷ s) e h = elim (Bool-cases (is_tchar b)) [
  | inl tchar ↦ ground (arith, tchar, h)
  | inr other ↦ rw other refl
]
take_token-append (b ∷ t) s e h = elim (Bool-cases (is_tchar b)) [
  | inl tchar ↦ rw (tchar, take_token-append t s (ground arith) h) refl
  | inr other ↦ ground (arith, other, e)
]

pub all-take_token : (s : Str) → all is_tchar (take_token s).0 ≡ true
unfolding take_token
all-take_token [] = refl
all-take_token (b ∷ s) = elim (Bool-cases (is_tchar b)) [
  | inl tchar ↦ rw (tchar, all-take_token s) (rw tchar refl)
  | inr other ↦ rw other refl
]

pub length-take_token : (s : Str) → length (take_token s).1 ≤ length s
unfolding take_token
length-take_token [] = omega arith
length-take_token (b ∷ s) = elim (Bool-cases (is_tchar b)) [
  | inl tchar ↦ rw tchar (omega (arith, length-take_token s))
  | inr other ↦ rw other (omega arith)
]

pub length-skip_ows : (s : Str) → length (skip_ows s) ≤ length s
unfolding skip_ows
length-skip_ows [] = omega arith
length-skip_ows (b ∷ s) = elim (Bool-cases (b == 32 || b == 9)) [
  | inl blank ↦ rw blank (omega (arith, length-skip_ows s))
  | inr other ↦ rw other (omega arith)
]

-- Token characters are printable ASCII, and stay token characters in lower case.
pub is_tchar-ascii :
    (b : ℕ) → is_tchar b ≡ true → (ltb b 128 ≡ true) × ((b == 32 || b == 9) ≡ false)
unfolding is_tchar
is_tchar-ascii b e = (ground arith, ground arith)

pub is_tchar-lower : (b : ℕ) → is_tchar b ≡ true → is_tchar (lower b) ≡ true
unfolding is_tchar
is_tchar-lower b e = ground arith

pub skip_ows-token : (t s : Str) → is_token t ≡ true → skip_ows (t ++ s) ≡ t ++ s
unfolding skip_ows
skip_ows-token [] s e = cc
skip_ows-token (b ∷ t) s e = elim (Bool-cases (is_tchar b)) [
  | inl tchar ↦ rw ((is_tchar-ascii b tchar).1) refl
  | inr other ↦ ground (arith, other, e)
]

pub is_token-lower : (s : Str) → all is_tchar s ≡ true → all is_tchar (map lower s) ≡ true
is_token-lower [] e = refl
is_token-lower (b ∷ s) e = elim (Bool-cases (is_tchar b)) [
  | inl tchar ↦ rw (is_tchar-lower b tchar) (is_token-lower s (ground arith))
  | inr other ↦ ground (arith, other, e)
]

pub lower-lower : (b : ℕ) → lower (lower b) ≡ lower b
lower-lower b = ground arith

pub map-lower-lower : (s : Str) → map lower (map lower s) ≡ map lower s
map-lower-lower [] = refl
map-lower-lower (b ∷ s) = ap₂ (λ x y. x ∷ y) (lower-lower b) (map-lower-lower s)

pub all-ascii : (s : Str) → all is_tchar s ≡ true → all (λ b. ltb b 128) s ≡ true
all-ascii [] e = refl
all-ascii (b ∷ s) e = elim (Bool-cases (is_tchar b)) [
  | inl tchar ↦ rw ((is_tchar-ascii b tchar).0) (all-ascii s (ground arith))
  | inr other ↦ ground (arith, other, e)
]
