-- ===== src/Receipt/Tests.antt =====
-- Runs of receipt.rs on small inputs, and the theorems at concrete inputs.
use ahl_core.Prelude.{
  ℕ, true, false, none, some, List, [], ◌∷◌, ◌++◌, codes, str_eq, ◌↔◌, ◌≡◌, ◌≢◌, ◌⊎◌, refl,
  if◌then◌else◌, any,
}
use ahl_core.Error.{AhlError, ok, err}
use ahl_core.Json.Toy.{Tree, t_str, t_obj, f_end, f_item, field, toy_json}
use ahl_core.Receipt.Outcome.{
  Outcome, verified, unverifiable, invalid, outcome_eq, Assertion, structure, governance,
  checkpoint_authentication, content_binding, witnesses,
}
use ahl_core.Receipt.Failure.{genesis_anchor_mismatch, consistency_path_invalid, class, assertion}
use ahl_core.Receipt.Report.{Finding, Verdict, counts, counts_toward_result, reduce, dominating}
use ahl_core.Receipt.Run.{
  Run, is_at, new_run, default_limits, is_blocked, phase, pass_resting_on, record_gap,
  prerequisites, settle, record_finding, block, attribute, is_budget, defer,
}
use ahl_core.Receipt.Ending.{into_report}
use ahl_core.Receipt.Reduction.{sentence, reduce-eq-sentence}
use ahl_core.Receipt.Recorded.{leo}
use ahl_core.Receipt.Dominating.{IsDecisive}
use ahl_core.Receipt.Concluded.{
  into_report-dominating, into_report-verdict, into_report-rejected, into_report_complete,
}
use ahl_core.Receipt.Blocking.{is_open}
use ahl_core.Receipt.Steps.{passes, gaps, phases, Reach, stay, step}
use ahl_core.Receipt.Invariants.{Reach-explained, Reach-worsens}
use ahl_core.Bitemporal.{valid_time_from_payload, parse_rfc3339}
use ahl_core.Bitemporal.Toy.{clock}
use ahl_core.Receipt.Fields.{common_payload_fields, manifest_member}
use ahl_core.Receipt.Common.{IsCommon, common_payload_fields_iff}
use ahl_core.Receipt.Unique.{unique, Reach-unique}
use ahl_core.Receipt.Tolerance.{Ends, CarriesOn, tolerate_cases, pass_resting_on-rests}

abbrev finding : Assertion → Outcome → List (List ℕ) → Finding
finding a o path = record {
  assertion = a;
  outcome = o;
  receipt_path = path;
  detail = none;
  rests_on = none;
}

abbrev mixed : List Finding
mixed =
    finding structure verified []
    ∷ finding content_binding invalid (codes "inner" ∷ [])
    ∷ finding governance unverifiable []
    ∷ []

reduce-eq-sentence_example : reduce mixed ≡ sentence mixed
reduce-eq-sentence_example = reduce-eq-sentence mixed

-- An embedded content binding does not enter the reduction.
reduce-mixed : sentence mixed ≡ unverifiable
unfolding counts counts_toward_result
reduce-mixed = refl

abbrev fresh : Run
fresh = new_run default_limits

-- The genesis anchor is not the verifier's: governance is short, the checkpoint rests on it.
abbrev short : Run
short = record_gap (phase fresh governance) genesis_anchor_mismatch

abbrev rested : Run
rested = pass_resting_on short checkpoint_authentication []

abbrev verdict : Verdict
verdict = record {
  claim_type = codes "introduction";
  subject_entry_index = 3;
  subject_statement_id = codes "id";
  assurance = record {
    governance = codes "inducted";
    competing_triggers = codes "none";
    witnessed = false;
    continued_history = false;
    content_binding = codes "none";
    canonicalization_namespace = none;
  };
  boundary = codes "text";
  embedded_receipts = 0;
}

abbrev bare : Tree
bare = t_obj f_end

rested-reached : Reach fresh rested
rested-reached =
    step _ _ _
      (step _ _ _ (step _ _ _ (stay fresh) (phases fresh governance))
        (gaps (phase fresh governance) genesis_anchor_mismatch))
      (passes short checkpoint_authentication [])

Reach-worsens_example :
    (leo (reduce fresh.findings) (reduce rested.findings) ≡ true)
    × ((a : Assertion) (path : List (List ℕ))
        → any (is_open a path) fresh.findings ≡ true
        → any (is_open a path) rested.findings ≡ true)
Reach-worsens_example = Reach-worsens fresh rested rested-reached

Reach-unique_example : unique rested.findings ≡ true
Reach-unique_example = Reach-unique fresh rested rested-reached refl

is_blocked-rested : is_blocked rested.blocked checkpoint_authentication ≡ true
unfolding pass_resting_on record_gap block defer record_finding settle attribute is_budget phase
    prerequisites
is_blocked-rested = refl

Reach-explained_example : any (is_open checkpoint_authentication rested.path) rested.findings ≡ true
Reach-explained_example =
    Reach-explained fresh rested rested-reached refl checkpoint_authentication is_blocked-rested

tolerate_cases_example :
    Ends fresh consistency_path_invalid
    ⊎ ((next : Run) × CarriesOn fresh consistency_path_invalid next)
tolerate_cases_example = tolerate_cases fresh consistency_path_invalid

is_blocked-short :
    any (is_blocked short.blocked) (prerequisites checkpoint_authentication ++ []) ≡ true
unfolding pass_resting_on record_gap block defer record_finding settle attribute is_budget phase
    prerequisites
is_blocked-short = refl

pass_resting_on-rests_example :
    (any (is_open checkpoint_authentication short.path) rested.findings ≡ true)
    × (is_blocked rested.blocked checkpoint_authentication ≡ true)
pass_resting_on-rests_example =
    pass_resting_on-rests short checkpoint_authentication [] is_blocked-short

into_report-dominating_example :
    ((into_report toy_json rested (ok verdict) bare).result
      ≡ sentence (into_report toy_json rested (ok verdict) bare).findings)
    × IsDecisive
        (into_report toy_json rested (ok verdict) bare)
        (dominating (into_report toy_json rested (ok verdict) bare))
into_report-dominating_example = into_report-dominating toy_json rested (ok verdict) bare

into_report-verdict_example :
    ((into_report toy_json rested (ok verdict) bare).result ≡ sentence rested.findings)
    × ((into_report toy_json rested (ok verdict) bare).verdict
        ≡ (if outcome_eq (sentence rested.findings) verified then some verdict else none))
into_report-verdict_example = into_report-verdict toy_json rested verdict bare

counting : counts_toward_result (attribute fresh consistency_path_invalid) fresh.path ≡ true
unfolding counts_toward_result attribute is_budget assertion
counting = refl

into_report-rejected_example :
    (leo
        (class consistency_path_invalid)
        (into_report toy_json fresh (err consistency_path_invalid) bare).result
      ≡ true)
    × ((into_report toy_json fresh (err consistency_path_invalid) bare).result ≢ verified)
    × ((into_report toy_json fresh (err consistency_path_invalid) bare).verdict ≡ none)
into_report-rejected_example =
    into_report-rejected toy_json fresh bare consistency_path_invalid counting

class-genesis : class genesis_anchor_mismatch ≡ unverifiable
unfolding class
class-genesis = refl

into_report_complete_example :
    any
      (is_at witnesses [])
      (into_report toy_json fresh (err genesis_anchor_mismatch) bare).findings
    ≡ true
into_report_complete_example =
    into_report_complete toy_json fresh bare genesis_anchor_mismatch witnesses class-genesis refl

-- A manifest statement with its common fields.
abbrev statement : Tree
statement = t_obj (
    f_item (codes "type") (t_str (codes "manifest")) (
      f_item (codes "producer") (t_str (codes "p")) (
        f_item (codes "valid_time") (t_str (3 ∷ []))
          (f_item (codes "issued_at") (t_str (4 ∷ [])) f_end))))

abbrev render : AhlError → List ℕ
render e = []

common_payload_fields_iff_example :
    (common_payload_fields toy_json clock render statement ≡ ok tt)
    ↔ IsCommon toy_json clock render statement
common_payload_fields_iff_example = common_payload_fields_iff toy_json clock render statement

accepts-statement : common_payload_fields toy_json clock render statement ≡ ok tt
unfolding common_payload_fields manifest_member valid_time_from_payload parse_rfc3339 field str_eq
accepts-statement = refl
