-- ===== src/Prelude/Words.antt =====
-- Unsigned integers of a fixed width as bytes: `to_le_bytes`, `to_be_bytes` and their inverses.
use mathlib.Core.Path.{◌≡◌, refl, sym, ap, ◌∙◌}
use mathlib.Core.Bool.{Bool, true, ◌&&◌}
use mathlib.Core.List.{[], ◌∷◌, ◌++◌, reverse, reverse-cons, reverse-reverse}
use native.Mathlib.Omega.{arith}
use native.Mathlib.Nat.{pow-suc}
use Prim.Native.Nat.{ℕ, zero, suc, ◌+◌, ◌*◌, ◌/◌, ◌%◌, ◌^◌, ◌<◌}
use ahl_core.Prelude.Tests.{ltb}
use ahl_core.Prelude.Lists.{length, all, length-append}
use ahl_core.Prelude.Text.{Bytes}

-- A byte has eight bits.
abbrev pub is_octet : ℕ → Bool
is_octet b = ltb b 256

unfoldable pub to_le : ℕ → ℕ → Bytes
to_le zero n = []
to_le (suc width) n = n % 256 ∷ to_le width (n / 256)

unfoldable pub from_le : Bytes → ℕ
from_le [] = 0
from_le (b ∷ bytes) = b + 256 * from_le bytes

abbrev pub to_be : ℕ → ℕ → Bytes
to_be width n = reverse (to_le width n)

abbrev pub from_be : Bytes → ℕ
from_be bytes = from_le (reverse bytes)

pub length-to_le : (width n : ℕ) → length (to_le width n) ≡ width
unfolding to_le
length-to_le zero n = refl
length-to_le (suc width) n = ap suc (length-to_le width (n / 256))

pub from_le-to_le : (width n : ℕ) → n < 256 ^ width → from_le (to_le width n) ≡ n
unfolding to_le from_le
from_le-to_le zero n h = omega (arith, h)
from_le-to_le (suc width) n h =
    rw (from_le-to_le width (n / 256) (omega (arith, h, pow-suc 256 width))) (omega arith)

pub to_le-from_le :
    (bytes : Bytes) → all is_octet bytes ≡ true → to_le (length bytes) (from_le bytes) ≡ bytes
unfolding to_le from_le
to_le-from_le [] h = refl
to_le-from_le (b ∷ bytes) h =
    let small : b < 256 = ground arith in
    let low : (b + 256 * from_le bytes) % 256 ≡ b = omega (arith, small) in
    let high : (b + 256 * from_le bytes) / 256 ≡ from_le bytes = omega (arith, small) in
    rw (low, high) (ap (λ r. b ∷ r) (to_le-from_le bytes (ground arith)))

pub from_le-lt : (bytes : Bytes) → all is_octet bytes ≡ true → from_le bytes < 256 ^ length bytes
unfolding from_le
from_le-lt [] h = omega arith
from_le-lt (b ∷ bytes) h =
    let small : b < 256 = ground arith in
    omega (arith, small, from_le-lt bytes (ground arith), pow-suc 256 (length bytes))

pub all-append : (xs ys : Bytes) → all is_octet (xs ++ ys) ≡ (all is_octet xs && all is_octet ys)
all-append [] ys = refl
all-append (x ∷ xs) ys = ground (arith, all-append xs ys)

pub length-reverse : (bytes : Bytes) → length (reverse bytes) ≡ length bytes
length-reverse [] = refl
length-reverse (b ∷ bytes) =
    ap length (reverse-cons b bytes)
    ∙ (length-append (reverse bytes) (b ∷ []) ∙ omega (arith, length-reverse bytes))

all-reverse : (bytes : Bytes) → all is_octet (reverse bytes) ≡ all is_octet bytes
all-reverse [] = refl
all-reverse (b ∷ bytes) =
    ap (all is_octet) (reverse-cons b bytes)
    ∙ (all-append (reverse bytes) (b ∷ [])
        ∙ rw (all-reverse bytes) (swap (is_octet b) (all is_octet bytes)))
  where
    swap : (p q : Bool) → (q && (p && true)) ≡ (p && q)
    swap p q = ground arith

pub length-to_be : (width n : ℕ) → length (to_be width n) ≡ width
length-to_be width n = length-reverse (to_le width n) ∙ length-to_le width n

pub from_be-to_be : (width n : ℕ) → n < 256 ^ width → from_be (to_be width n) ≡ n
from_be-to_be width n h = rw (reverse-reverse (to_le width n)) (from_le-to_le width n h)

pub to_be-from_be :
    (width : ℕ) (bytes : Bytes)
    → length bytes ≡ width
    → all is_octet bytes ≡ true
    → to_be width (from_be bytes) ≡ bytes
to_be-from_be width bytes e h =
    ap (λ w. reverse (to_le w (from_le (reverse bytes)))) (sym (length-reverse bytes ∙ e))
    ∙ (ap reverse (to_le-from_le (reverse bytes) (all-reverse bytes ∙ h)) ∙ reverse-reverse bytes)

pub from_be-lt :
    (width : ℕ) (bytes : Bytes)
    → length bytes ≡ width
    → all is_octet bytes ≡ true
    → from_be bytes < 256 ^ width
from_be-lt width bytes e h =
    rw (sym (length-reverse bytes ∙ e)) (from_le-lt (reverse bytes) (all-reverse bytes ∙ h))

pub all-to_le : (width n : ℕ) → all is_octet (to_le width n) ≡ true
unfolding to_le
all-to_le zero n = refl
all-to_le (suc width) n = let rest = all-to_le width (n / 256) in ground arith

pub all-to_be : (width n : ℕ) → all is_octet (to_be width n) ≡ true
all-to_be width n = all-reverse (to_le width n) ∙ all-to_le width n
