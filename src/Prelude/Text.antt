-- ===== src/Prelude/Text.antt =====
-- A `str` or a `[u8]` is the list of its bytes. Equality, order and prefixes are those of the
-- bytes, which is what the program compares.
use Prim.Native.Nat.{ℕ}
use Prim.Native.Char.{code}
use Prim.Native.String.{String}
use mathlib.Core.Path.{◌≡◌, refl}
use mathlib.Core.Logic.{◌↔◌}
use mathlib.Core.Bool.{Bool, true, false, ◌&&◌}
use mathlib.Core.Option.{Option, none, some}
use mathlib.Core.List.{List, [], ◌∷◌, ◌++◌}
use native.Mathlib.Omega.{arith}
use ahl_core.Prelude.Tests.{◌==◌, if◌then◌else◌}

abbrev pub Bytes : Type 0
Bytes = List ℕ

abbrev pub Str : Type 0
Str = List ℕ

-- An ASCII literal.
abbrev pub codes : String → Str
codes String.[] = []
codes (String.◌∷◌ c s) = code c ∷ codes s

unfoldable pub str_eq : Str → Str → Bool
str_eq [] [] = true
str_eq [] (b ∷ bs) = false
str_eq (a ∷ as') [] = false
str_eq (a ∷ as') (b ∷ bs) = (a == b) && str_eq as' bs

pub str_eq→eq : (a b : Str) → str_eq a b ≡ true → a ≡ b
unfolding str_eq
str_eq→eq [] [] h = refl
str_eq→eq [] (b ∷ bs) h = cc
str_eq→eq (a ∷ as') [] h = cc
str_eq→eq (a ∷ as') (b ∷ bs) h = ground (arith, str_eq→eq as' bs)

pub str_eq_refl : (a : Str) → str_eq a a ≡ true
unfolding str_eq
str_eq_refl [] = refl
str_eq_refl (a ∷ as') = ground (arith, str_eq_refl as')

pub str_eq_iff : (a b : Str) → (str_eq a b ≡ true) ↔ (a ≡ b)
str_eq_iff a b = (str_eq→eq a b, λ e. rw e (str_eq_refl b))

-- `value.strip_prefix(prefix)`.
unfoldable pub strip_prefix? : Str → Str → Option Str
strip_prefix? s [] = some s
strip_prefix? [] (p ∷ ps) = none
strip_prefix? (c ∷ s) (p ∷ ps) = if c == p then strip_prefix? s ps else none

pub strip_prefix?-append : (p s : Str) → strip_prefix? (p ++ s) p ≡ some s
unfolding strip_prefix?
strip_prefix?-append [] [] = refl
strip_prefix?-append [] (c ∷ s) = refl
strip_prefix?-append (c ∷ p) s = ground (arith, strip_prefix?-append p s)

pub strip_prefix?-eq_some : (p s r : Str) → strip_prefix? s p ≡ some r → s ≡ p ++ r
unfolding strip_prefix?
strip_prefix?-eq_some [] [] r h = ground arith
strip_prefix?-eq_some [] (d ∷ s) r h = ground arith
strip_prefix?-eq_some (c ∷ p) [] r h = cc
strip_prefix?-eq_some (c ∷ p) (d ∷ s) r h = ground (arith, strip_prefix?-eq_some p s r)
