-- ===== src/Receipt/Ending.antt =====
-- The end of a run (receipt.rs): `Run::into_report`, `Run::fill_unreached` and
-- `Run::dominating_deferred`.
use ahl_core.Prelude.{
  ℕ, suc, Bool, true, false, not, ◌&&◌, ◌||◌, Option, none, some, List, [], ◌∷◌, Str, codes, str_eq,
  if◌then◌else◌, filter, any, Ordering, get_elem?,
}
use ahl_core.Prelude.Order.{Ord, nat_ord, list_ord, then_with, sort_by}
use ahl_core.Error.{Result, ok, err}
use ahl_core.Json.{Json}
use ahl_core.Receipt.Outcome.{
  verified, unverifiable, invalid, outcome_eq, Assertion, content_binding, assertion_rank,
  assertion_eq, assertion_order,
}
use ahl_core.Receipt.Failure.{ReceiptError, class}
use ahl_core.Receipt.Report.{
  rendered, resting, Verdict, Report, counts_toward_result, reduce, cmp_finding,
}
use ahl_core.Receipt.Run.{Run, Tolerated, attribute, record_finding, is_at}

-- `value.get(key)` on an optional value, as `and_then` chains it.
abbrev pub and_then {ℓ κ} : {A : Type ℓ} {B : Type κ} → Option A → (A → Option B) → Option B
and_then none f = none
and_then (some a) f = f a

-- One turn of the loop of `fill_unreached`, at the outermost path.
unfoldable pub fill_step : Run → Bool → Assertion → Assertion → Run
fill_step run binds_content stopped_at a =
    if (assertion_eq a content_binding && not binds_content) || any (is_at a []) run.findings
    then run
    else record_finding run a unverifiable (some (resting stopped_at)) (some stopped_at)

-- The loop of `fill_unreached`.
unfoldable pub fill : Run → Bool → Assertion → List Assertion → Run
fill run binds_content stopped_at [] = run
fill run binds_content stopped_at (a ∷ rest) =
    fill (fill_step run binds_content stopped_at a) binds_content stopped_at rest

module _ (json : Json) where
  open json use {Value, get, as_str}

  -- `claim.assurance.content_binding` is carried, and is not `none`.
  unfoldable pub binds_content : Value → Bool
  binds_content receipt =
      elim (and_then
        (and_then (and_then (get receipt (codes "claim")) (λ claim. get claim (codes "assurance")))
          (λ assurance. get assurance (codes "content_binding")))
        as_str) [ some binding ↦ not (str_eq binding (codes "none")) | none ↦ false ]

  unfoldable pub fill_unreached : Run → Value → Assertion → Run
  fill_unreached run receipt stopped_at =
      fill (record run { path = [] }) (binds_content receipt) stopped_at assertion_order

  -- The rejection that ended the run, recorded, with what rests on it.
  unfoldable pub close : Run → Value → ReceiptError → Run
  close run receipt error =
      let stopped_at = attribute run error in
      let run' = record_finding run stopped_at (class error) (some (rendered error)) none in
      if outcome_eq (class error) unverifiable then fill_unreached run' receipt stopped_at else run'

  abbrev pub report_of : Run → Option Verdict → Report
  report_of run verdict =
      let findings = sort_by cmp_finding run.findings in
      record {
        result = reduce findings;
        findings = findings;
        informative = run.informative;
        verdict = if outcome_eq (reduce findings) verified then verdict else none;
      }

  unfoldable pub into_report : Run → Result ReceiptError Verdict → Value → Report
  into_report run (ok verdict) receipt = report_of run (some verdict)
  into_report run (err error) receipt = report_of (close run receipt error) none

-- The order of `dominating_deferred`.
unfoldable pub cmp_tolerated : Tolerated → Tolerated → Ordering
cmp_tolerated (a, a_path, _) (b, b_path, _) =
    then_with (Ord.cmp (list_ord {A = Str}) a_path b_path)
      (Ord.cmp nat_ord (assertion_rank a) (assertion_rank b))

-- `position(...)`
abbrev pub position {ℓ} : {A : Type ℓ} → (A → Bool) → List A → Option ℕ
position p [] = none
position p (x ∷ xs) =
    let rest = position p xs in
    elim (p x) [ true ↦ some 0 | false ↦ elim rest [ none ↦ none | some i ↦ some (suc i) ] ]

-- The first invalid candidate, or else the first.
unfoldable pub choose : List Tolerated → Option ℕ
choose [] = none
choose (c ∷ cs) = elim (position (λ x. outcome_eq (class x.2) invalid) (c ∷ cs)) [
  | some i ↦ some i
  | none ↦ some 0
]

unfoldable pub dominating_deferred : Run → Option ReceiptError
dominating_deferred run =
    let candidates =
      sort_by cmp_tolerated (filter (λ x. counts_toward_result x.0 x.1) run.deferred) in
    and_then (choose candidates) (λ i. and_then (get_elem? candidates i) (λ x. some x.2))
