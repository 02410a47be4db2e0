-- ===== src/Receipt/Concluded.antt =====
-- The report of a completed run (receipt.rs, `Run::into_report`, `Run::fill_unreached`).
use ahl_core.Prelude.{
  Bool, true, not, ◌||◌, none, some, List, [], ◌∷◌, ◌≡◌, ◌≢◌, inl, inr, refl, sym, ap, ◌∙◌,
  if◌then◌else◌, arith, any, Bool-cases, Ordering,
}
use ahl_core.Prelude.Order.{insert_by, sort_by}
use ahl_core.Error.{Result, ok, err}
use ahl_core.Json.{Json}
use ahl_core.Receipt.Outcome.{
  Outcome, verified, unverifiable, outcome_eq, Assertion, assertion_eq, content_binding,
  assertion_order, order_complete,
}
use ahl_core.Receipt.Failure.{ReceiptError, class}
use ahl_core.Receipt.Report.{
  rendered, Finding, Verdict, counts_toward_result, reduce, dominating, cmp_finding,
}
use ahl_core.Receipt.Run.{Run, is_at, record_finding, attribute}
use ahl_core.Receipt.Ending.{into_report, close, fill_unreached, binds_content}
use ahl_core.Receipt.Failing.{class_failing}
use ahl_core.Receipt.Reduction.{sentence, reduce-eq-sentence, reduce-sort_by}
use ahl_core.Receipt.Dominating.{IsDecisive, decided}
use ahl_core.Receipt.Recorded.{leo, leo_trans, settle-counting}
use ahl_core.Receipt.Unreached.{fill-leo, fill-reaches}

any-insert_by :
    (p : Finding → Bool) (cmp : Finding → Finding → Ordering) (f : Finding) (fs : List Finding)
    → any p (insert_by cmp f fs) ≡ any p (f ∷ fs)
unfolding insert_by
any-insert_by p cmp f [] = refl
any-insert_by p cmp f (g ∷ fs) = ground (arith, any-insert_by p cmp f fs)

pub any-sort_by :
    (p : Finding → Bool) (cmp : Finding → Finding → Ordering) (fs : List Finding)
    → any p (sort_by cmp fs) ≡ any p fs
unfolding sort_by
any-sort_by p cmp [] = refl
any-sort_by p cmp (f ∷ fs) = rw (any-insert_by p cmp f (sort_by cmp fs), any-sort_by p cmp fs) refl

failing : (error : ReceiptError) (r : Outcome) → leo (class error) r ≡ true → r ≡ verified → ⊥
failing error r bound v = ground (arith, class_failing error)

module _ (json : Json) where
  open json use {Value}

  -- The result of every report is the reduction of I-D section 7.7 of its findings, and
  -- `dominating` names what decided it: nothing for `verified`; otherwise a finding of the report
  -- that enters the reduction and has the result's value, one that does not rest on another
  -- assertion unless it is `invalid` or no other entering `unverifiable` finding is such a cause.
  pub into_report-dominating :
      (run : Run) (outcome : Result ReceiptError Verdict) (receipt : Value)
      → ((into_report json run outcome receipt).result
          ≡ sentence (into_report json run outcome receipt).findings)
        × IsDecisive
            (into_report json run outcome receipt)
            (dominating (into_report json run outcome receipt))
  unfolding into_report
  into_report-dominating run (ok verdict) receipt =
      (reduce-eq-sentence _, decided (into_report json run (ok verdict) receipt) refl)
  into_report-dominating run (err error) receipt =
      (reduce-eq-sentence _, decided (into_report json run (err error) receipt) refl)

  -- A completed run that returned a verdict reports it exactly when the findings of the run reduce
  -- to `verified`; its result is their reduction in the words of I-D section 7.7.
  pub into_report-verdict :
      (run : Run) (verdict : Verdict) (receipt : Value)
      → ((into_report json run (ok verdict) receipt).result ≡ sentence run.findings)
        × ((into_report json run (ok verdict) receipt).verdict
            ≡ (if outcome_eq (sentence run.findings) verified then some verdict else none))
  unfolding into_report
  into_report-verdict run verdict receipt =
      let e = reduce-sort_by cmp_finding run.findings ∙ reduce-eq-sentence run.findings in
      (e, rw e refl)

  close-leo :
      (run : Run) (receipt : Value) (error : ReceiptError)
      → counts_toward_result (attribute run error) run.path ≡ true
      → leo (class error) (reduce (close json run receipt error).findings) ≡ true
  unfolding close fill_unreached record_finding
  close-leo run receipt error c = elim (Bool-cases (outcome_eq (class error) unverifiable)) [
    | inl short ↦ rw short (
        leo_trans _ _ _ (settle-counting run.findings _ _ _ _ _ c) (
          fill-leo (binds_content json receipt) (attribute run error)
            (record (record_finding run (attribute run error) (class error) (some (rendered error))
              none) { path = [] })
            assertion_order))
    | inr bad ↦ rw bad (settle-counting run.findings _ _ _ _ _ c)
  ]

  -- A run that was ended by a rejection whose finding enters the reduction never reports
  -- `verified` and carries no verdict, and its result is at least the class of the rejection.
  pub into_report-rejected :
      (run : Run) (receipt : Value) (error : ReceiptError)
      → counts_toward_result (attribute run error) run.path ≡ true
      → (leo (class error) (into_report json run (err error) receipt).result ≡ true)
        × ((into_report json run (err error) receipt).result ≢ verified)
        × ((into_report json run (err error) receipt).verdict ≡ none)
  unfolding into_report
  into_report-rejected run receipt error c =
      let e = reduce-sort_by cmp_finding (close json run receipt error).findings in
      let bound = close-leo run receipt error c in
      (rw e bound, λ v. failing error _ bound (sym e ∙ v), ground arith)

  -- A run that is ended by an `unverifiable` rejection reports every required assertion of the
  -- outermost receipt: each one has a finding at the empty path, the content binding at least
  -- where the receipt carries one other than `none`.
  pub into_report_complete :
      (run : Run) (receipt : Value) (error : ReceiptError) (assertion : Assertion)
      → class error ≡ unverifiable
      → not (assertion_eq assertion content_binding) || binds_content json receipt ≡ true
      → any (is_at assertion []) (into_report json run (err error) receipt).findings ≡ true
  unfolding into_report close fill_unreached
  into_report_complete run receipt error assertion short required =
      any-sort_by (is_at assertion []) cmp_finding (close json run receipt error).findings
      ∙ rw (ap (λ c. outcome_eq c unverifiable) short) (
          fill-reaches (binds_content json receipt) (attribute run error)
            (record (record_finding run (attribute run error) (class error) (some (rendered error))
              none) { path = [] })
            assertion_order assertion refl (order_complete assertion) required)
