-- ===== src/Receipt/Steps.antt =====
-- The operations of a run on one receipt as a step relation (receipt.rs, `Run`), and what holds at
-- every state that they reach.
use ahl_core.Prelude.{
  ℕ, true, false, not, ◌&&◌, ◌||◌, Option, none, some, List, [], ◌∷◌, ◌++◌, Str, ◌+◌, ◌-◌, ◌^◌, min,
  ◌≡◌, inl, inr, refl, ltb, if◌then◌else◌, arith, find, Bool-cases,
}
use ahl_core.Prelude.Order.{nat_ord}
use ahl_core.Prelude.Sets.{contains}
use ahl_core.Error.{Result, ok, err}
use ahl_core.Receipt.Outcome.{
  Outcome, verified, unverifiable, outcome_eq, Assertion, content_binding, governance,
  claim_material,
}
use ahl_core.Receipt.Failure.{ReceiptError, class}
use ahl_core.Receipt.Report.{Detail, rendered, resting, Finding, VoidReason, counts_toward_result}
use ahl_core.Receipt.Run.{
  Run, is_blocked, block, defer, record_finding, prerequisites, pass_resting_on, record_gap,
  tolerate, void, set_aside, phase, spend, enter, attribute, max_embedded_depth,
  max_embedded_receipts, is_version, is_budget, settle_content_binding, is_rotation, back_to_claim,
}
use ahl_core.Receipt.Failing.{class_failing}

-- One call of a method of the run.
pub data Step : Run → Run → Type 0 where
  passes :
      (run : Run) (a : Assertion) (also : List Assertion) → Step run (pass_resting_on run a also)
  gaps : (run : Run) (e : ReceiptError) → Step run (record_gap run e)
  tolerates :
      (run : Run) (outcome : Result ReceiptError (Unit {0})) → Step run (tolerate run outcome).1
  binds :
      (run : Run) (outcome : Result ReceiptError (Unit {0}))
      → Step run (settle_content_binding run outcome).1
  phases : (run : Run) (a : Assertion) → Step run (phase run a)
  voids : (run : Run) (i : ℕ) (reason : VoidReason) → Step run (void run i reason)
  sets_aside : (run : Run) (i : ℕ) → Step run (set_aside run i)
  spends : (run : Run) (units : ℕ) → Step run (spend run units).1
  enters : (run : Run) (depth : ℕ) → Step run (enter run depth).1

pub data Reach : Run → Run → Type 0 where
  stay : (run : Run) → Reach run run
  step : (a b c : Run) → Reach a b → Step b c → Reach a c

-- A predicate on the findings, the path and the blocked assertions.
abbrev pub On : (List Finding → List Str → List Assertion → Type 0) → Run → Type 0
On Q run = Q run.findings run.path run.blocked

-- What such a predicate needs to hold after every step, and the rule that it then does.
pub record IsStable (Q : List Finding → List Str → List Assertion → Type 0) : Type 0 where
  pub on_verified :
      (run : Run) (a : Assertion) → On Q run → On Q (record_finding run a verified none none)
  pub on_open :
      (run : Run) (a : Assertion) (o : Outcome) (d : Option Detail) (rests_on : Option Assertion)
      → outcome_eq o verified ≡ false
      → On Q run
      → On Q (block (record_finding run a o d rests_on) a)

pub failing : (e : ReceiptError) → outcome_eq (class e) verified ≡ false
failing e = ground (arith, class_failing e)

module _ (Q : List Finding → List Str → List Assertion → Type 0) (stable : IsStable Q) where
  open stable use {on_verified, on_open}

  abbrev P : Run → Type 0
  P = On Q

  on_phase : (run : Run) (a : Assertion) → P run → P (phase run a)
  unfolding phase
  on_phase run a h = h

  on_void : (run : Run) (i : ℕ) (reason : VoidReason) → P run → P (void run i reason)
  unfolding void
  on_void run i reason h = elim (Bool-cases (contains run.void_indexes i)) [
    | inl old ↦ rw old h
    | inr new ↦ rw new h
  ]

  on_set_aside : (run : Run) (i : ℕ) → P run → P (set_aside run i)
  unfolding set_aside
  on_set_aside run i h = h

  on_spend : (run : Run) (units : ℕ) → P run → P (spend run units).1
  unfolding spend
  on_spend run units h =
      elim (Bool-cases (ltb run.limits.max_work_units (min (run.work + units) (2 ^ 64 - 1)))) [
        | inl spent ↦ rw spent h
        | inr within ↦ rw within h
      ]

  on_enter : (run : Run) (depth : ℕ) → P run → P (enter run depth).1
  unfolding enter
  on_enter run depth h = elim (Bool-cases (ltb max_embedded_depth depth)) [
    | inl deep ↦ rw deep h
    | inr flat ↦ elim (Bool-cases (ltb 0 depth)) [
      | inr outer ↦ rw (flat, outer) h
      | inl inner ↦
          elim (Bool-cases (ltb max_embedded_receipts (min (run.embedded + 1) (2 ^ 64 - 1)))) [
            | inl many ↦ rw (flat, inner, many) h
            | inr few ↦ rw (flat, inner, few) h
          ]
    ]
  ]

  on_defer :
      (run : Run) (a : Assertion) (e : ReceiptError) → P (block run a) → P (block (defer run a e) a)
  unfolding block defer
  on_defer run a e =
      elim (is_blocked run.blocked a)
        as (λ c.
          P (if c then run else record run { blocked = run.blocked ++ a ∷ [] })
          → P (
              if c
              then defer run a e
              else record (defer run a e) { blocked = run.blocked ++ a ∷ [] })) [
                | true ↦ λ h. h
                | false ↦ λ h. h
              ]

  after_pass :
      (run : Run) (a : Assertion) (also : List Assertion) → P run → P (pass_resting_on run a also)
  unfolding pass_resting_on
  after_pass run a also h =
      elim (find (is_blocked run.blocked) (prerequisites a ++ also))
        as (λ o. P (elim o [
          | some prerequisite ↦
              block
                (record_finding run a unverifiable (some (resting prerequisite))
                  (some prerequisite))
                a
          | none ↦ record_finding run a verified none none
        ])) [
          | none ↦ on_verified run a h
          | some p ↦ on_open run a unverifiable (some (resting p)) (some p) refl h
        ]

  after_gap : (run : Run) (e : ReceiptError) → P run → P (record_gap run e)
  unfolding record_gap defer
  after_gap run e h =
      (on_open run (attribute run e) (class e) (some (rendered e)) none (failing e) h)

  after_tolerate :
      (run : Run) (outcome : Result ReceiptError (Unit {0})) → P run → P (tolerate run outcome).1
  unfolding tolerate
  after_tolerate run (ok x) h = h
  after_tolerate run (err e) h =
      elim (Bool-cases (
        not (outcome_eq (class e) unverifiable)
        && counts_toward_result (attribute run e) run.path)) [
          | inl decides ↦ rw decides h
          | inr carries ↦ elim (Bool-cases (is_version e || is_budget e)) [
            | inl ends ↦ rw (carries, ends) h
            | inr goes ↦
                rw (carries, goes)
                  (on_defer _ (attribute run e) e (
                    on_open run (attribute run e) (class e) (some (rendered e)) none (failing e) h))
          ]
        ]

  after_back : (x : Result ReceiptError (Option (Unit {0})) × Run) → P x.1 → P (back_to_claim x).1
  after_back (ok y, run) h = on_phase run claim_material h
  after_back (err e, run) h = h

  after_bind :
      (run : Run) (outcome : Result ReceiptError (Unit {0}))
      → P run
      → P (settle_content_binding run outcome).1
  unfolding settle_content_binding
  after_bind run outcome h = elim (Bool-cases (is_rotation outcome)) [
    | inl rotation ↦ rw rotation (
        after_back _ (
          after_tolerate _ outcome
            (after_pass _ content_binding (governance ∷ []) (on_phase run content_binding h))))
    | inr other ↦ rw other (after_tolerate run outcome h)
  ]

  pub Step-preserves : (a b : Run) → Step a b → P a → P b
  Step-preserves a b (passes run x also) h = after_pass run x also h
  Step-preserves a b (gaps run e) h = after_gap run e h
  Step-preserves a b (tolerates run outcome) h = after_tolerate run outcome h
  Step-preserves a b (binds run outcome) h = after_bind run outcome h
  Step-preserves a b (phases run x) h = on_phase run x h
  Step-preserves a b (voids run i reason) h = on_void run i reason h
  Step-preserves a b (sets_aside run i) h = on_set_aside run i h
  Step-preserves a b (spends run units) h = on_spend run units h
  Step-preserves a b (enters run depth) h = on_enter run depth h

  pub Reach-preserves : (a b : Run) → Reach a b → P a → P b
  Reach-preserves a b (stay run) h = h
  Reach-preserves a b (step x y z path last) h =
      Step-preserves y z last (Reach-preserves x y path h)
