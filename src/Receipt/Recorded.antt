-- ===== src/Receipt/Recorded.antt =====
-- What recording a finding (receipt.rs, `Run::record`) does to the findings and to their reduction.
use ahl_core.Prelude.{
  Bool, true, Option, List, [], ◌∷◌, Str, ◌≡◌, inl, inr, refl, sym, ap, ◌∙◌, leb, ltb,
  if◌then◌else◌, arith, str_eq_refl, any, Bool-cases,
}
use ahl_core.Receipt.Outcome.{Outcome, verified, unverifiable, invalid, outcome_rank, Assertion}
use ahl_core.Receipt.Report.{
  Detail, Finding, is_empty, counts, counts_toward_result, max_outcome, reduce, path_eq,
}
use ahl_core.Receipt.Run.{settle, is_at}
use ahl_core.Receipt.Reduction.{reduce-cons, max_outcome-swap}

pub path_eq-is_empty : (a b : List Str) → path_eq a b ≡ true → is_empty a ≡ is_empty b
unfolding path_eq
path_eq-is_empty [] [] e = refl
path_eq-is_empty [] (b ∷ bs) e = cc
path_eq-is_empty (a ∷ as') [] e = cc
path_eq-is_empty (a ∷ as') (b ∷ bs) e = refl

is_at-counts :
    (a : Assertion) (path : List Str) (f : Finding)
    → is_at a path f ≡ true
    → counts f ≡ counts_toward_result a path
unfolding counts counts_toward_result
is_at-counts a path f e = ground (arith, path_eq-is_empty f.receipt_path path)

max_outcome-update :
    (x o r : Outcome)
    → max_outcome (if ltb (outcome_rank x) (outcome_rank o) then o else x) r
      ≡ max_outcome o (max_outcome x r)
unfolding max_outcome
max_outcome-update verified verified r = ground arith
max_outcome-update verified unverifiable r = ground arith
max_outcome-update verified invalid r = ground arith
max_outcome-update unverifiable verified r = ground arith
max_outcome-update unverifiable unverifiable r = ground arith
max_outcome-update unverifiable invalid r = ground arith
max_outcome-update invalid verified r = ground arith
max_outcome-update invalid unverifiable r = ground arith
max_outcome-update invalid invalid r = ground arith

module _ (o : Outcome) (d : Option Detail) (rests_on : Option Assertion) where
  -- The finding that already stands at the place, after the record.
  abbrev pub updated : Finding → Finding
  updated f =
      if ltb (outcome_rank f.outcome) (outcome_rank o)
      then record f { outcome = o; detail = d; rests_on = rests_on }
      else f

  counts-updated : (f : Finding) → counts (updated f) ≡ counts f
  unfolding counts
  counts-updated f = ground arith

  outcome-updated :
      (f : Finding)
      → (updated f).outcome
        ≡ (if ltb (outcome_rank f.outcome) (outcome_rank o) then o else f.outcome)
  outcome-updated f = ground arith

  reduce-updated :
      (f : Finding) (fs : List Finding)
      → reduce (updated f ∷ fs)
        ≡ (if counts f then max_outcome o (reduce (f ∷ fs)) else reduce (f ∷ fs))
  reduce-updated f fs =
      rw
        (
          reduce-cons (updated f) fs,
          reduce-cons f fs,
          counts-updated f,
          outcome-updated f,
          max_outcome-update f.outcome o (reduce fs),
        )
        (ground arith)

  abbrev raised : Assertion → List Str → Outcome → Outcome
  raised a path r = if counts_toward_result a path then max_outcome o r else r

  raised-swap :
      (a : Assertion) (path : List Str) (f : Finding) (r : Outcome)
      → (if counts f then max_outcome f.outcome (raised a path r) else raised a path r)
        ≡ raised a path (if counts f then max_outcome f.outcome r else r)
  raised-swap a path f r = ground (arith, max_outcome-swap f.outcome o r)

  -- Recording an outcome raises the reduction to that outcome where the finding enters it.
  pub reduce-settle :
      (fs : List Finding) (a : Assertion) (path : List Str)
      → reduce (settle fs a path o d rests_on) ≡ raised a path (reduce fs)
  unfolding settle counts
  reduce-settle [] a path = reduce-cons _ []
  reduce-settle (f ∷ fs) a path = elim (Bool-cases (is_at a path f)) [
    | inl here ↦ rw (here, sym (is_at-counts a path f here)) (reduce-updated f fs)
    | inr elsewhere ↦ rw (elsewhere) (
        reduce-cons f _
        ∙ ap (λ r. if counts f then max_outcome f.outcome r else r) (reduce-settle fs a path)
        ∙ raised-swap a path f (reduce fs)
        ∙ ap (raised a path) (sym (reduce-cons f fs)))
  ]

pub path_eq_refl : (a : List Str) → path_eq a a ≡ true
unfolding path_eq
path_eq_refl [] = refl
path_eq_refl (a ∷ as') = rw (str_eq_refl a) (path_eq_refl as')

pub any-settle :
    (fs : List Finding) (a : Assertion) (path : List Str) (o : Outcome) (d : Option Detail)
    (rests_on : Option Assertion)
    → any (is_at a path) (settle fs a path o d rests_on) ≡ true
unfolding settle
any-settle [] a path o d rests_on = rw path_eq_refl (ground arith)
any-settle (f ∷ fs) a path o d rests_on = ground (arith, any-settle fs a path o d rests_on)

pub any-settle_keep :
    (p : Assertion → List Str → Bool) (fs : List Finding) (a : Assertion) (path : List Str)
    (o : Outcome) (d : Option Detail) (rests_on : Option Assertion)
    → any (λ f. p f.assertion f.receipt_path) fs ≡ true
    → any (λ f. p f.assertion f.receipt_path) (settle fs a path o d rests_on) ≡ true
unfolding settle
any-settle_keep p [] a path o d rests_on e = cc
any-settle_keep p (f ∷ fs) a path o d rests_on e =
    ground (arith, any-settle_keep p fs a path o d rests_on)

-- `a` does not dominate `b`.
abbrev pub leo : Outcome → Outcome → Bool
leo a b = leb (outcome_rank a) (outcome_rank b)

pub leo-max_left : (a b : Outcome) → leo a (max_outcome a b) ≡ true
unfolding max_outcome
leo-max_left a b = ground arith

pub leo-max_right : (a b : Outcome) → leo b (max_outcome a b) ≡ true
unfolding max_outcome
leo-max_right a b = ground arith

pub leo_trans : (a b c : Outcome) → leo a b ≡ true → leo b c ≡ true → leo a c ≡ true
leo_trans a b c p q = ground arith

pub leo-settle :
    (fs : List Finding) (a : Assertion) (path : List Str) (o : Outcome) (d : Option Detail)
    (rests_on : Option Assertion)
    → leo (reduce fs) (reduce (settle fs a path o d rests_on)) ≡ true
leo-settle fs a path o d rests_on =
    rw (reduce-settle o d rests_on fs a path) (ground (arith, leo-max_right o (reduce fs)))

pub settle-counting :
    (fs : List Finding) (a : Assertion) (path : List Str) (o : Outcome) (d : Option Detail)
    (rests_on : Option Assertion)
    → counts_toward_result a path ≡ true
    → leo o (reduce (settle fs a path o d rests_on)) ≡ true
settle-counting fs a path o d rests_on c =
    rw (reduce-settle o d rests_on fs a path, c) (leo-max_left o (reduce fs))
