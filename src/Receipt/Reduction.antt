-- ===== src/Receipt/Reduction.antt =====
-- The reduction (receipt.rs, `reduce`, `Report::dominating`) against the sentence of I-D section
-- 7.7, and its independence of the order of the findings.
use ahl_core.Prelude.{
  Bool, ◌&&◌, List, [], ◌∷◌, ◌≡◌, refl, sym, ap, ◌∙◌, if◌then◌else◌, arith, any, Ordering,
}
use ahl_core.Prelude.Order.{insert_by, sort_by}
use ahl_core.Receipt.Outcome.{Outcome, verified, unverifiable, invalid, outcome_eq}
use ahl_core.Receipt.Report.{Finding, counts, max_outcome, max_of, reduce}

-- A finding of this value that enters the reduction.
abbrev pub has : Outcome → List Finding → Bool
has outcome findings = any (λ f. counts f && outcome_eq f.outcome outcome) findings

-- I-D section 7.7: `invalid` if any required finding is `invalid`; otherwise `unverifiable` if any
-- required finding is `unverifiable`; otherwise `verified`.
abbrev pub sentence : List Finding → Outcome
sentence findings =
    if has invalid findings
    then invalid
    else if has unverifiable findings
    then unverifiable
    else verified

pub reduce-cons :
    (f : Finding) (fs : List Finding)
    → reduce (f ∷ fs) ≡ (if counts f then max_outcome f.outcome (reduce fs) else reduce fs)
unfolding reduce max_of max_outcome
reduce-cons f fs = ground arith

-- `reduce`, the maximum of the findings that enter the reduction, is the sentence of I-D section
-- 7.7: `invalid` if any entering finding is `invalid`, otherwise `unverifiable` if any is,
-- otherwise `verified`.
pub reduce-eq-sentence : (findings : List Finding) → reduce findings ≡ sentence findings
unfolding reduce max_of max_outcome
reduce-eq-sentence [] = refl
reduce-eq-sentence (f ∷ fs) = rw reduce-cons (ground (arith, reduce-eq-sentence fs))

-- What sorting moves, at the front.
pub max_outcome-swap :
    (a b c : Outcome) → max_outcome a (max_outcome b c) ≡ max_outcome b (max_outcome a c)
unfolding max_outcome
max_outcome-swap verified verified c = refl
max_outcome-swap verified unverifiable c = ground arith
max_outcome-swap verified invalid c = ground arith
max_outcome-swap unverifiable verified c = ground arith
max_outcome-swap unverifiable unverifiable c = refl
max_outcome-swap unverifiable invalid c = ground arith
max_outcome-swap invalid verified c = ground arith
max_outcome-swap invalid unverifiable c = ground arith
max_outcome-swap invalid invalid c = refl

-- One finding more.
abbrev enter_finding : Finding → Outcome → Outcome
enter_finding f r = if counts f then max_outcome f.outcome r else r

enter_finding-swap :
    (f g : Finding) (r : Outcome)
    → enter_finding f (enter_finding g r) ≡ enter_finding g (enter_finding f r)
enter_finding-swap f g r = ground (arith, max_outcome-swap f.outcome g.outcome r)

pub reduce-cong :
    (f : Finding) (xs ys : List Finding) → reduce xs ≡ reduce ys → reduce (f ∷ xs) ≡ reduce (f ∷ ys)
reduce-cong f xs ys e = reduce-cons f xs ∙ ap (enter_finding f) e ∙ sym (reduce-cons f ys)

reduce-swap : (f g : Finding) (fs : List Finding) → reduce (f ∷ g ∷ fs) ≡ reduce (g ∷ f ∷ fs)
reduce-swap f g fs =
    reduce-cons f (g ∷ fs)
    ∙ ap (enter_finding f) (reduce-cons g fs)
    ∙ enter_finding-swap f g (reduce fs)
    ∙ sym (ap (enter_finding g) (reduce-cons f fs))
    ∙ sym (reduce-cons g (f ∷ fs))

reduce-insert_by :
    (cmp : Finding → Finding → Ordering) (f : Finding) (fs : List Finding)
    → reduce (insert_by cmp f fs) ≡ reduce (f ∷ fs)
unfolding insert_by
reduce-insert_by cmp f [] = refl
reduce-insert_by cmp f (g ∷ fs) =
    elim (cmp f g)
      as (λ c.
        reduce (elim c [ Ordering.gt ↦ g ∷ insert_by cmp f fs | _ ↦ f ∷ g ∷ fs ])
        ≡ reduce (f ∷ g ∷ fs)) [
          | Ordering.lt ↦ refl
          | Ordering.eq ↦ refl
          | Ordering.gt ↦ reduce-cong g _ _ (reduce-insert_by cmp f fs) ∙ reduce-swap g f fs
        ]

pub reduce-sort_by :
    (cmp : Finding → Finding → Ordering) (fs : List Finding) → reduce (sort_by cmp fs) ≡ reduce fs
unfolding sort_by
reduce-sort_by cmp [] = refl
reduce-sort_by cmp (f ∷ fs) =
    reduce-insert_by cmp f (sort_by cmp fs) ∙ reduce-cong f _ _ (reduce-sort_by cmp fs)
