-- ===== src/Receipt/Run.antt =====
-- One verification run (receipt.rs, `Run`): the budgets, and the findings that it records.
-- A method that takes `&mut self` returns the new run.
use ahl_core.Prelude.{
  ℕ, ◌+◌, ◌-◌, ◌*◌, ◌^◌, min, Bool, true, false, not, ◌&&◌, ◌||◌, Option, none, some, List, [], ◌∷◌,
  ◌++◌, Str, codes, ltb, if◌then◌else◌, find, any,
}
use ahl_core.Prelude.Order.{nat_ord, list_ord}
use ahl_core.Prelude.Sets.{contains, insert}
use ahl_core.Error.{Result, ok, err}
use ahl_core.Receipt.Outcome.{
  Outcome, verified, unverifiable, outcome_rank, outcome_eq, Assertion, versions, resource_limits,
  structure, adaptor_profile, anchoring, governance, checkpoint_authentication, witnesses,
  envelope_validity, cross_field, claim_material, content_binding, assertion_eq,
}
use ahl_core.Receipt.Failure.{
  ReceiptError, budget_exhausted, unsupported_version, limit_exceeded,
  governance_rotation_unverifiable, class, assertion,
}
use ahl_core.Receipt.Report.{
  Detail, rendered, resting, Finding, VoidReason, InformativeItem, Verdict, unwrap_or,
  counts_toward_result, path_eq,
}

pub record Limits : Type 0 where
  pub max_decoded_bytes : ℕ
  pub max_work_units : ℕ

-- `Limits::default`
abbrev pub default_limits : Limits
default_limits = record { max_decoded_bytes = 8 * 1024 * 1024; max_work_units = 100000 }

abbrev pub max_embedded_depth : ℕ
max_embedded_depth = 4

abbrev pub max_embedded_receipts : ℕ
max_embedded_receipts = 64

-- A rejection that was recorded and carried on from.
abbrev pub Tolerated : Type 0
Tolerated = Assertion × List Str × ReceiptError

pub record Run : Type 0 where
  pub limits : Limits
  pub work : ℕ
  pub embedded : ℕ
  -- `verified`: by the digest of the embedded receipt
  pub verified_receipts : List (Str × Verdict × List Finding)
  pub findings : List Finding
  pub path : List Str
  pub scope : Option Assertion
  pub blocked : List Assertion
  pub deferred : List Tolerated
  pub informative : List InformativeItem
  pub set_aside_indexes : List ℕ
  pub void_indexes : List ℕ

-- `Run::new`
abbrev pub new_run : Limits → Run
new_run limits = record {
  limits = limits;
  work = 0;
  embedded = 0;
  verified_receipts = [];
  findings = [];
  path = [];
  scope = none;
  blocked = [];
  deferred = [];
  informative = [];
  set_aside_indexes = [];
  void_indexes = [];
}

unfoldable pub prerequisites : Assertion → List Assertion
prerequisites checkpoint_authentication = adaptor_profile ∷ governance ∷ []
prerequisites witnesses = adaptor_profile ∷ governance ∷ checkpoint_authentication ∷ []
prerequisites envelope_validity = governance ∷ []
prerequisites versions = []
prerequisites resource_limits = []
prerequisites structure = []
prerequisites adaptor_profile = []
prerequisites anchoring = []
prerequisites governance = []
prerequisites cross_field = []
prerequisites claim_material = []
prerequisites content_binding = []

-- The test of `Run::record`: the finding of this assertion at this path.
abbrev pub is_at : Assertion → List Str → Finding → Bool
is_at assertion path f = assertion_eq f.assertion assertion && path_eq f.receipt_path path

-- The first finding at the place gets the dominating outcome; without one, a finding is pushed.
unfoldable pub settle :
    List Finding → Assertion → List Str → Outcome → Option Detail → Option Assertion → List Finding
settle [] assertion path outcome detail rests_on =
    record {
      assertion = assertion;
      outcome = outcome;
      receipt_path = path;
      detail = detail;
      rests_on = rests_on;
    }
    ∷ []
settle (f ∷ fs) assertion path outcome detail rests_on =
    let later = f ∷ settle fs assertion path outcome detail rests_on in
    if is_at assertion path f
    then (if ltb (outcome_rank f.outcome) (outcome_rank outcome)
        then record f { outcome = outcome; detail = detail; rests_on = rests_on }
        else f)
      ∷ fs
    else later

-- `Run::record`
unfoldable pub record_finding : Run → Assertion → Outcome → Option Detail → Option Assertion → Run
record_finding run assertion outcome detail rests_on = record run {
  findings = settle run.findings assertion run.path outcome detail rests_on;
}

-- `Run::phase`
unfoldable pub phase : Run → Assertion → Run
phase run assertion = record run { scope = some assertion }

unfoldable pub is_budget : ReceiptError → Bool
is_budget (budget_exhausted _ _) = true
is_budget _ = false

unfoldable pub is_version : ReceiptError → Bool
is_version (unsupported_version _ _ _) = true
is_version _ = false

unfoldable pub attribute : Run → ReceiptError → Assertion
attribute run error =
    if is_budget error then resource_limits else unwrap_or run.scope (assertion error)

abbrev pub is_blocked : List Assertion → Assertion → Bool
is_blocked blocked assertion = any (assertion_eq assertion) blocked

-- `if !self.blocked.contains(&assertion) { self.blocked.push(assertion) }`
unfoldable pub block : Run → Assertion → Run
block run assertion =
    if is_blocked run.blocked assertion
    then run
    else record run { blocked = run.blocked ++ assertion ∷ [] }

unfoldable pub pass_resting_on : Run → Assertion → List Assertion → Run
pass_resting_on run assertion also =
    elim (find (is_blocked run.blocked) (prerequisites assertion ++ also)) [
      | some prerequisite ↦
          block
            (record_finding run assertion unverifiable (some (resting prerequisite))
              (some prerequisite))
            assertion
      | none ↦ record_finding run assertion verified none none
    ]

unfoldable pub pass : Run → Assertion → Run
pass run assertion = pass_resting_on run assertion []

-- `Run::void`
unfoldable pub void : Run → ℕ → VoidReason → Run
void run entry_index reason = if contains run.void_indexes entry_index then run else record run {
  void_indexes = insert entry_index run.void_indexes;
  informative =
      run.informative
      ++ record { entry_index = entry_index; reason = reason; receipt_path = run.path } ∷ [];
}

unfoldable pub set_aside : Run → ℕ → Run
set_aside run entry_index = record run {
  set_aside_indexes = insert entry_index run.set_aside_indexes;
}

unfoldable pub is_void : Run → ℕ → Bool
is_void run entry_index =
    contains run.void_indexes entry_index || contains run.set_aside_indexes entry_index

-- `self.deferred.push(...)`
unfoldable pub defer : Run → Assertion → ReceiptError → Run
defer run settled error = record run { deferred = run.deferred ++ (settled, run.path, error) ∷ [] }

unfoldable pub record_gap : Run → ReceiptError → Run
record_gap run error =
    let settled = attribute run error in
    defer (block (record_finding run settled (class error) (some (rendered error)) none) settled)
      settled error

module _ {A : Type 0} where
  unfoldable pub tolerate : Run → Result ReceiptError A → Result ReceiptError (Option A) × Run
  tolerate run (ok value) = (ok (some value), run)
  tolerate run (err error) =
      let settled = attribute run error in
      if not (outcome_eq (class error) unverifiable) && counts_toward_result settled run.path
      then (err error, run)
      else if is_version error || is_budget error
      then (err error, run)
      else (
        ok none,
        block
            (defer (record_finding run settled (class error) (some (rendered error)) none) settled
              error)
            settled,
      )

unfoldable pub is_rotation : Result ReceiptError (Unit {0}) → Bool
is_rotation (err (governance_rotation_unverifiable _)) = true
is_rotation _ = false

abbrev pub drop_value : Result ReceiptError (Option (Unit {0})) → Result ReceiptError (Unit {0})
drop_value (ok _) = ok tt
drop_value (err e) = err e

-- After the tolerated rotation: `?`, then `self.phase(ClaimMaterial)`.
abbrev pub back_to_claim :
    Result ReceiptError (Option (Unit {0})) × Run → Result ReceiptError (Unit {0}) × Run
back_to_claim (err e, run) = (err e, run)
back_to_claim (ok _, run) = (ok tt, phase run claim_material)

unfoldable pub settle_content_binding :
    Run → Result ReceiptError (Unit {0}) → Result ReceiptError (Unit {0}) × Run
settle_content_binding run outcome =
    if is_rotation outcome
    then back_to_claim (
        tolerate (pass_resting_on (phase run content_binding) content_binding (governance ∷ []))
          outcome)
    else (let (result, run') = tolerate run outcome in (drop_value result, run'))

unfoldable pub spend : Run → ℕ → Result ReceiptError (Unit {0}) × Run
spend run units =
    let run' = record run { work = min (run.work + units) (2 ^ 64 - 1) } in
    if ltb run.limits.max_work_units run'.work
    then (err (budget_exhausted (codes "verification work units") run.limits.max_work_units), run')
    else (ok tt, run')

unfoldable pub enter : Run → ℕ → Result ReceiptError (Unit {0}) × Run
enter run depth =
    if ltb max_embedded_depth depth
    then (err (limit_exceeded (codes "embedded-receipt nesting depth")), run)
    else if ltb 0 depth
    then (let run' = record run { embedded = min (run.embedded + 1) (2 ^ 64 - 1) } in
        if ltb max_embedded_receipts run'.embedded
        then (err (limit_exceeded (codes "embedded receipts per file")), run')
        else (ok tt, run'))
    else (ok tt, run)
