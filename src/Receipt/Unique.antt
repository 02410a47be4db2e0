-- ===== src/Receipt/Unique.antt =====
-- One finding to an assertion at a path (receipt.rs, `Run::record`).
use ahl_core.Prelude.{
  Bool, true, false, not, ◌&&◌, ◌||◌, Option, List, [], ◌∷◌, Str, ◌≡◌, inl, inr, refl, sym, ap, ◌∙◌,
  ltb, arith, any, Bool-cases, str_eq, str_eq→eq,
}
use ahl_core.Receipt.Outcome.{Outcome, outcome_rank, Assertion, assertion_eq}
use ahl_core.Receipt.Report.{Detail, Finding, path_eq}
use ahl_core.Receipt.Run.{Run, settle, is_at}
use ahl_core.Receipt.Recorded.{updated}
use ahl_core.Receipt.Steps.{Reach, Reach-preserves}
use ahl_core.Receipt.Invariants.{findings-IsStable}

str_eq-sym : (a b : Str) → str_eq a b ≡ str_eq b a
unfolding str_eq
str_eq-sym [] [] = refl
str_eq-sym [] (y ∷ ys) = refl
str_eq-sym (x ∷ xs) [] = refl
str_eq-sym (x ∷ xs) (y ∷ ys) = ground (arith, str_eq-sym xs ys)

path_eq-sym : (a b : List Str) → path_eq a b ≡ path_eq b a
unfolding path_eq
path_eq-sym [] [] = refl
path_eq-sym [] (y ∷ ys) = refl
path_eq-sym (x ∷ xs) [] = refl
path_eq-sym (x ∷ xs) (y ∷ ys) = rw (str_eq-sym x y, path_eq-sym xs ys) refl

path_eq→eq : (a b : List Str) → path_eq a b ≡ true → a ≡ b
unfolding path_eq
path_eq→eq [] [] e = refl
path_eq→eq [] (y ∷ ys) e = cc
path_eq→eq (x ∷ xs) [] e = cc
path_eq→eq (x ∷ xs) (y ∷ ys) e = ground (arith, str_eq→eq x y, path_eq→eq xs ys)

-- One finding to an assertion at a path.
abbrev pub same_place : Finding → Finding → Bool
same_place f g = is_at f.assertion f.receipt_path g

abbrev pub unique : List Finding → Bool
unique [] = true
unique (f ∷ fs) = not (any (same_place f) fs) && unique fs

is_at-place :
    (a b : Assertion) (p q : List Str) (f : Finding)
    → is_at a p f ≡ true
    → is_at b q f ≡ (assertion_eq a b && path_eq p q)
is_at-place a b p q f e = ground (arith, path_eq→eq f.receipt_path p)

or_absorb : (x y : Bool) → (x || y) ≡ ((x || y) || x)
or_absorb x y = ground arith

or_assoc : (x y z : Bool) → (x || (y || z)) ≡ ((x || y) || z)
or_assoc x y z = ground arith

module _ (a : Assertion) (p : List Str) (o : Outcome) (d : Option Detail)
    (rests_on : Option Assertion) where
  is_at-updated :
      (b : Assertion) (q : List Str) (f : Finding)
      → is_at b q (updated o d rests_on f) ≡ is_at b q f
  is_at-updated b q f = elim (Bool-cases (ltb (outcome_rank f.outcome) (outcome_rank o))) [
    | inl up ↦ rw up refl
    | inr stay ↦ rw stay refl
  ]

  any-settle_eq :
      (b : Assertion) (q : List Str) (fs : List Finding)
      → any (is_at b q) (settle fs a p o d rests_on)
        ≡ (any (is_at b q) fs || (assertion_eq a b && path_eq p q))
  unfolding settle
  any-settle_eq b q [] = ground arith
  any-settle_eq b q (f ∷ fs) = elim (Bool-cases (is_at a p f)) [
    | inl here ↦ rw here (
        ap (λ x. x || any (is_at b q) fs) (is_at-updated b q f ∙ is_at-place a b p q f here)
        ∙ or_absorb _ (any (is_at b q) fs)
        ∙ ap (λ x. (x || any (is_at b q) fs) || (assertion_eq a b && path_eq p q))
            (sym (is_at-place a b p q f here)))
    | inr elsewhere ↦ rw elsewhere (
        ap (λ x. is_at b q f || x) (any-settle_eq b q fs)
        ∙ or_assoc (is_at b q f) (any (is_at b q) fs) (assertion_eq a b && path_eq p q))
  ]

  assertion_eq-sym : (b : Assertion) → assertion_eq a b ≡ assertion_eq b a
  assertion_eq-sym b = ground arith

  free :
      (f : Finding) (fs : List Finding)
      → is_at a p f ≡ false
      → any (same_place f) fs ≡ false
      → any (same_place f) (settle fs a p o d rests_on) ≡ false
  free f fs elsewhere h =
      any-settle_eq f.assertion f.receipt_path fs
      ∙ rw (h, assertion_eq-sym f.assertion, path_eq-sym p f.receipt_path) elsewhere

  same-updated :
      (f : Finding) (fs : List Finding)
      → any (same_place (updated o d rests_on f)) fs ≡ any (same_place f) fs
  same-updated f fs = elim (Bool-cases (ltb (outcome_rank f.outcome) (outcome_rank o))) [
    | inl up ↦ rw up refl
    | inr stay ↦ rw stay refl
  ]

  and_both : (x y : Bool) → not x && y ≡ true → (x ≡ false) × (y ≡ true)
  and_both x y e = ground arith

  unique-settle :
      (fs : List Finding) → unique fs ≡ true → unique (settle fs a p o d rests_on) ≡ true
  unfolding settle
  unique-settle [] e = refl
  unique-settle (f ∷ fs) e =
      let parts = and_both (any (same_place f) fs) (unique fs) e in
      elim (Bool-cases (is_at a p f)) [
        | inl here ↦ rw (here, same-updated f fs) e
        | inr elsewhere ↦ rw (elsewhere, free f fs elsewhere parts.0, unique-settle fs parts.1) refl
      ]

-- A run that starts with at most one finding to an assertion at a path never has two.
pub Reach-unique :
    (start run : Run) → Reach start run → unique start.findings ≡ true → unique run.findings ≡ true
Reach-unique start run =
    Reach-preserves _
      (findings-IsStable (λ fs. unique fs ≡ true) (λ fs a p o d r. unique-settle a p o d r fs))
      start run
