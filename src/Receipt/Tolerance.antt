-- ===== src/Receipt/Tolerance.antt =====
-- What a run carries on past (receipt.rs, `Run::tolerate`, `Run::pass_resting_on`).
use ahl_core.Prelude.{
  Bool, true, false, not, ◌&&◌, ◌||◌, none, some, List, [], ◌∷◌, ◌++◌, ◌≡◌, ◌⊎◌, inl, inr, refl,
  arith, any, find, Bool-cases,
}
use ahl_core.Error.{ok, err}
use ahl_core.Receipt.Outcome.{invalid, unverifiable, outcome_eq, Assertion}
use ahl_core.Receipt.Failure.{ReceiptError, class}
use ahl_core.Receipt.Report.{rendered, counts_toward_result}
use ahl_core.Receipt.Run.{
  Run, is_blocked, block, defer, record_finding, prerequisites, pass_resting_on, tolerate,
  attribute, is_version, is_budget,
}
use ahl_core.Receipt.Blocking.{is_open, settle-open, block-blocked}
use ahl_core.Receipt.Dominating.{outcome_eq→eq}
use ahl_core.Receipt.Steps.{failing}

find-some {ℓ} :
    {A : Type ℓ} (p : A → Bool) (xs : List A) → any p xs ≡ true → (x : A) × (find p xs ≡ some x)
find-some p [] e = cc
find-some p (x ∷ xs) e = elim (Bool-cases (p x)) [
  | inl here ↦ (x, rw (here, find) refl)
  | inr later ↦ (let (y, f) = find-some p xs (ground arith) in (y, rw (later, find) f))
]

-- A rejection is never `verified`.
class_cases : (e : ReceiptError) → (class e ≡ invalid) ⊎ (class e ≡ unverifiable)
unfolding class
class_cases _ = ground arith

class-invalid : (e : ReceiptError) → outcome_eq (class e) unverifiable ≡ false → class e ≡ invalid
class-invalid e other = elim (class_cases e) [
  | inl rejected ↦ rejected
  | inr short ↦ absurd (ground arith)
]

-- The run ends: the rejection is handed on and nothing changes.
abbrev pub Ends : Run → ReceiptError → Type 0
Ends run e =
    (tolerate {A = Unit {0}} run (err e) ≡ (err e, run))
    × (((class e ≡ invalid) × (counts_toward_result (attribute run e) run.path ≡ true))
        ⊎ (is_version e || is_budget e ≡ true))

-- The run carries on: the rejection is a finding, it is deferred, and its assertion is blocked.
abbrev pub CarriesOn : Run → ReceiptError → Run → Type 0
CarriesOn run e next =
    (tolerate {A = Unit {0}} run (err e) ≡ (ok none, next))
    × ((class e ≡ unverifiable) ⊎ (counts_toward_result (attribute run e) run.path ≡ false))
    × (is_version e || is_budget e ≡ false)
    × (any (is_open (attribute run e) run.path) next.findings ≡ true)
    × (is_blocked next.blocked (attribute run e) ≡ true)
    × (next.deferred ≡ run.deferred ++ (attribute run e, run.path, e) ∷ [])

module _ (run : Run) (a : Assertion) where
  block-findings : (block run a).findings ≡ run.findings
  unfolding block
  block-findings = elim (Bool-cases (is_blocked run.blocked a)) [
    | inl old ↦ rw old refl
    | inr new ↦ rw new refl
  ]

  block-deferred : (block run a).deferred ≡ run.deferred
  unfolding block
  block-deferred = elim (Bool-cases (is_blocked run.blocked a)) [
    | inl old ↦ rw old refl
    | inr new ↦ rw new refl
  ]

abbrev carried : Run → ReceiptError → Run
carried run e =
    block
      (defer (record_finding run (attribute run e) (class e) (some (rendered e)) none)
        (attribute run e) e)
      (attribute run e)

carried-open :
    (run : Run) (e : ReceiptError)
    → any (is_open (attribute run e) run.path) (carried run e).findings ≡ true
unfolding defer record_finding
carried-open run e = rw block-findings (
    settle-open run.findings (attribute run e) run.path (class e) (some (rendered e)) none
      (failing e))

carried-deferred :
    (run : Run) (e : ReceiptError)
    → (carried run e).deferred ≡ run.deferred ++ (attribute run e, run.path, e) ∷ []
unfolding defer record_finding
carried-deferred run e = rw block-deferred refl

light_class :
    (run : Run) (e : ReceiptError)
    → not (outcome_eq (class e) unverifiable) && counts_toward_result (attribute run e) run.path
      ≡ false
    → (class e ≡ unverifiable) ⊎ (counts_toward_result (attribute run e) run.path ≡ false)
light_class run e light = elim (Bool-cases (outcome_eq (class e) unverifiable)) [
  | inl short ↦ inl (outcome_eq→eq (class e) unverifiable short)
  | inr other ↦ inr (ground arith)
]

-- A rejection under `tolerate` either ends the run, which is left as it was, and then the rejection
-- is `invalid` and enters the reduction or is an unsupported version or a spent budget; or the run
-- carries on, and then the rejection is `unverifiable` or outside the reduction, an open finding of
-- its assertion stands at the run's path, the assertion is blocked, and the rejection is deferred.
pub tolerate_cases :
    (run : Run) (e : ReceiptError) → Ends run e ⊎ ((next : Run) × CarriesOn run e next)
unfolding tolerate
tolerate_cases run e =
    elim (Bool-cases (
      not (outcome_eq (class e) unverifiable) && counts_toward_result (attribute run e) run.path)) [
        | inl decides ↦ inl (rw decides refl, inl (class-invalid e (ground arith), ground arith))
        | inr light ↦ elim (Bool-cases (is_version e || is_budget e)) [
          | inl ends ↦ inl (rw (light, ends) refl, inr ends)
          | inr goes ↦ inr (
            carried run e,
            (
              rw (light, goes) refl,
              light_class run e light,
              goes,
              carried-open run e,
              block-blocked _ (attribute run e),
              carried-deferred run e,
            ),
          )
        ]
      ]

-- An assertion that rests on a blocked one is not passed: it gets an open finding and is itself
-- blocked.
pub pass_resting_on-rests :
    (run : Run) (a : Assertion) (also : List Assertion)
    → any (is_blocked run.blocked) (prerequisites a ++ also) ≡ true
    → (any (is_open a run.path) (pass_resting_on run a also).findings ≡ true)
      × (is_blocked (pass_resting_on run a also).blocked a ≡ true)
unfolding pass_resting_on record_finding
pass_resting_on-rests run a also unmet =
    let (p, e) = find-some (is_blocked run.blocked) (prerequisites a ++ also) unmet in
    (
      rw (e, pass_resting_on, block-findings)
          (settle-open run.findings a run.path unverifiable _ _ refl),
      rw (e, pass_resting_on) (block-blocked _ a),
    )
