-- ===== src/Receipt/Dominating.antt =====
-- What decided a report (receipt.rs, `Report::dominating`), against its result.
use ahl_core.Prelude.{
  ℕ, suc, Bool, true, false, ◌&&◌, Option, none, some, List, [], ◌∷◌, ◌≡◌, ◌≢◌, ◌⊎◌, inl, inr, refl,
  sym, ◌∙◌, arith, find, filter, any, get_elem?,
}
use ahl_core.Receipt.Outcome.{Outcome, verified, unverifiable, invalid, outcome_eq}
use ahl_core.Receipt.Report.{Finding, Report, counts, reduce, dominating, or_else, is_none}
use ahl_core.Receipt.Reduction.{has, sentence, reduce-eq-sentence}

-- The place of an element.
abbrev pub Holds {ℓ} : {A : Type ℓ} → List A → A → Type ℓ
Holds xs x = (i : ℕ) × (get_elem? xs i ≡ some x)

later {ℓ} : {A : Type ℓ} (x : A) (y : A) (xs : List A) → Holds xs y → Holds (x ∷ xs) y
later x y xs (i, e) = (suc i, e)

module _ {A : Type 0} (p q : A → Bool) where
  find-p : (xs : List A) (x : A) → find p (filter q xs) ≡ some x → p x ≡ true
  find-p [] x e = cc
  find-p (y ∷ ys) x e = ground (arith, find-p ys x)

  find-q : (xs : List A) (x : A) → find p (filter q xs) ≡ some x → q x ≡ true
  find-q [] x e = cc
  find-q (y ∷ ys) x e = ground (arith, find-q ys x)

  find-Holds : (xs : List A) (x : A) → find p (filter q xs) ≡ some x → Holds xs x
  find-Holds [] x e = cc
  find-Holds (y ∷ ys) x e =
      (elim (q y)
          as (λ a.
            find p (elim a [ true ↦ y ∷ filter q ys | false ↦ filter q ys ]) ≡ some x
            → Holds (y ∷ ys) x) [
              | true ↦
                  elim (p y)
                    as (λ b.
                      elim b [ true ↦ some y | false ↦ find p (filter q ys) ] ≡ some x
                      → Holds (y ∷ ys) x) [
                        | true ↦ λ e. (0, e)
                        | false ↦ λ e. later y x ys (find-Holds ys x e)
                      ]
              | false ↦ λ e. later y x ys (find-Holds ys x e)
            ])
        e

  find-any : (xs : List A) (x : A) → find p (filter q xs) ≡ some x → any (λ x. q x && p x) xs ≡ true
  find-any [] x e = cc
  find-any (y ∷ ys) x e = ground (arith, find-any ys x)

  find-none : (xs : List A) → find p (filter q xs) ≡ none → any (λ x. q x && p x) xs ≡ false
  find-none [] e = refl
  find-none (x ∷ xs) e = ground (arith, find-none xs)

-- What a finding must be to have decided the report: it enters the reduction, it has the result's
-- value, and a finding that rests on another one stands only where no cause is left.
abbrev pub causes : List Finding → Bool
causes findings =
    any (λ g. counts g && (outcome_eq g.outcome unverifiable && is_none g.rests_on)) findings

abbrev pub IsDecisive : Report → Option Finding → Type 0
IsDecisive r none = r.result ≡ verified
IsDecisive r (some f) =
    (counts f ≡ true)
    × (f.outcome ≡ r.result)
    × (r.result ≢ verified)
    × Holds r.findings f
    × ((is_none f.rests_on ≡ true) ⊎ (f.outcome ≡ invalid) ⊎ (causes r.findings ≡ false))

abbrev is_invalid : Finding → Bool
is_invalid f = outcome_eq f.outcome invalid

abbrev is_unverifiable : Finding → Bool
is_unverifiable f = outcome_eq f.outcome unverifiable

abbrev is_cause : Finding → Bool
is_cause f = outcome_eq f.outcome unverifiable && is_none f.rests_on

pub outcome_eq→eq : (a b : Outcome) → outcome_eq a b ≡ true → a ≡ b
outcome_eq→eq verified verified e = refl
outcome_eq→eq verified unverifiable e = cc
outcome_eq→eq verified invalid e = cc
outcome_eq→eq unverifiable verified e = cc
outcome_eq→eq unverifiable unverifiable e = refl
outcome_eq→eq unverifiable invalid e = cc
outcome_eq→eq invalid verified e = cc
outcome_eq→eq invalid unverifiable e = cc
outcome_eq→eq invalid invalid e = refl

and_left : (a b : Bool) → a && b ≡ true → a ≡ true
and_left a b e = ground arith

and_right : (a b : Bool) → a && b ≡ true → b ≡ true
and_right a b e = ground arith

has_cause : (fs : List Finding) → causes fs ≡ true → has unverifiable fs ≡ true
has_cause [] e = cc
has_cause (f ∷ fs) e = ground (arith, has_cause fs)

module _ (r : Report) (e : r.result ≡ reduce r.findings) where
  result-sentence : r.result ≡ sentence r.findings
  result-sentence = e ∙ reduce-eq-sentence r.findings

  result-invalid :
      (f : Finding) → find is_invalid (filter counts r.findings) ≡ some f → r.result ≡ invalid
  result-invalid f ea = rw (result-sentence, find-any is_invalid counts r.findings f ea) refl

  result-unverifiable :
      (f : Finding)
      → find is_invalid (filter counts r.findings) ≡ none
      → find is_unverifiable (filter counts r.findings) ≡ some f
      → r.result ≡ unverifiable
  result-unverifiable f ea ec =
      rw
        (
          result-sentence,
          find-none is_invalid counts r.findings ea,
          find-any is_unverifiable counts r.findings f ec,
        )
        refl

  cause-unverifiable :
      (f : Finding)
      → find is_invalid (filter counts r.findings) ≡ none
      → find is_cause (filter counts r.findings) ≡ some f
      → r.result ≡ unverifiable
  cause-unverifiable f ea eb =
      rw
        (
          result-sentence,
          find-none is_invalid counts r.findings ea,
          has_cause r.findings (find-any is_cause counts r.findings f eb),
        )
        refl

  decided_by :
      (a b c : Option Finding)
      → find is_invalid (filter counts r.findings) ≡ a
      → find is_cause (filter counts r.findings) ≡ b
      → find is_unverifiable (filter counts r.findings) ≡ c
      → IsDecisive r (or_else a (or_else b c))
  decided_by (some f) b c ea eb ec = (
    find-q is_invalid counts r.findings f ea,
    outcome_eq→eq f.outcome invalid (find-p is_invalid counts r.findings f ea)
        ∙ sym (result-invalid f ea),
    λ v. cc (v, result-invalid f ea),
    find-Holds is_invalid counts r.findings f ea,
    inr (inl (outcome_eq→eq f.outcome invalid (find-p is_invalid counts r.findings f ea))),
  )
  decided_by none (some f) c ea eb ec = (
    find-q is_cause counts r.findings f eb,
    outcome_eq→eq f.outcome unverifiable (and_left _ _ (find-p is_cause counts r.findings f eb))
        ∙ sym (cause-unverifiable f ea eb),
    λ v. cc (v, cause-unverifiable f ea eb),
    find-Holds is_cause counts r.findings f eb,
    inl (and_right _ _ (find-p is_cause counts r.findings f eb)),
  )
  decided_by none none (some f) ea eb ec = (
    find-q is_unverifiable counts r.findings f ec,
    outcome_eq→eq f.outcome unverifiable (find-p is_unverifiable counts r.findings f ec)
        ∙ sym (result-unverifiable f ea ec),
    λ v. cc (v, result-unverifiable f ea ec),
    find-Holds is_unverifiable counts r.findings f ec,
    inr (inr (find-none is_cause counts r.findings eb)),
  )
  decided_by none none none ea eb ec =
      rw
        (
          result-sentence,
          find-none is_invalid counts r.findings ea,
          find-none is_unverifiable counts r.findings ec,
        )
        refl

  pub decided : IsDecisive r (dominating r)
  unfolding dominating
  decided = decided_by _ _ _ refl refl refl
