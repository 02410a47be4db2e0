-- ===== src/Receipt/Report.antt =====
-- Findings, their reduction to one value, and the report (receipt.rs, `Finding`, `reduce`,
-- `Report`). A detail rendered from an error is that error; the text `rests on ...` is its
-- assertion.
use ahl_core.Prelude.{
  ℕ, Bool, true, false, not, ◌&&◌, ◌||◌, Option, none, some, List, [], ◌∷◌, Str, str_eq, ltb,
  if◌then◌else◌, find, filter, map, Ordering,
}
use ahl_core.Prelude.Order.{Ord, nat_ord, list_ord, then_with}
use ahl_core.Receipt.Outcome.{
  Outcome, verified, unverifiable, invalid, outcome_rank, outcome_eq, Assertion, assertion_rank,
  assertion_eq, content_binding,
}
use ahl_core.Receipt.Failure.{ReceiptError}

pub data Detail : Type 0 where
  rendered : ReceiptError → Detail
  resting : Assertion → Detail

pub record Finding : Type 0 where
  pub assertion : Assertion
  pub outcome : Outcome
  pub receipt_path : List Str
  pub detail : Option Detail
  pub rests_on : Option Assertion

pub data VoidReason : Type 0 where
  signature_invalid key_not_active : VoidReason

pub record InformativeItem : Type 0 where
  pub entry_index : ℕ
  pub reason : VoidReason
  pub receipt_path : List Str

pub record Assurance : Type 0 where
  pub governance : Str
  pub competing_triggers : Str
  pub witnessed : Bool
  pub continued_history : Bool
  pub content_binding : Str
  pub canonicalization_namespace : Option Str

pub record Verdict : Type 0 where
  pub claim_type : Str
  pub subject_entry_index : ℕ
  pub subject_statement_id : Str
  pub assurance : Assurance
  pub boundary : Str
  pub embedded_receipts : ℕ

pub record Report : Type 0 where
  pub result : Outcome
  pub findings : List Finding
  pub informative : List InformativeItem
  pub verdict : Option Verdict

abbrev pub is_empty {ℓ} : {A : Type ℓ} → List A → Bool
is_empty [] = true
is_empty (_ ∷ _) = false

-- The free-standing `counts_toward_result`.
unfoldable pub counts_toward_result : Assertion → List Str → Bool
counts_toward_result assertion path = not (assertion_eq assertion content_binding) || is_empty path

-- `Finding::counts_toward_result`
unfoldable pub counts : Finding → Bool
unfolding counts_toward_result
counts f = counts_toward_result f.assertion f.receipt_path

-- `max` of two outcomes under the derived order.
unfoldable pub max_outcome : Outcome → Outcome → Outcome
max_outcome a b = if ltb (outcome_rank b) (outcome_rank a) then a else b

-- `Iterator::max`
unfoldable pub max_of : List Outcome → Option Outcome
max_of [] = none
max_of (x ∷ xs) = elim (max_of xs) [ none ↦ some x | some y ↦ some (max_outcome x y) ]

abbrev pub unwrap_or {ℓ} : {A : Type ℓ} → Option A → A → A
unwrap_or none d = d
unwrap_or (some a) d = a

unfoldable pub reduce : List Finding → Outcome
reduce findings = unwrap_or (max_of (map (λ f. f.outcome) (filter counts findings))) verified

abbrev pub or_else {ℓ} : {A : Type ℓ} → Option A → Option A → Option A
or_else (some a) b = some a
or_else none b = b

abbrev pub is_none {ℓ} : {A : Type ℓ} → Option A → Bool
is_none none = true
is_none (some _) = false

-- `Report::dominating`
unfoldable pub dominating : Report → Option Finding
dominating r =
    let counting = filter counts r.findings in
    or_else (find (λ f. outcome_eq f.outcome invalid) counting) (
      or_else (find (λ f. outcome_eq f.outcome unverifiable && is_none f.rests_on) counting)
        (find (λ f. outcome_eq f.outcome unverifiable) counting))

-- `a.receipt_path == b` on paths.
unfoldable pub path_eq : List Str → List Str → Bool
path_eq [] [] = true
path_eq [] (b ∷ bs) = false
path_eq (a ∷ as') [] = false
path_eq (a ∷ as') (b ∷ bs) = str_eq a b && path_eq as' bs

-- `Report::finding_at` and `Report::finding`
unfoldable pub finding_at : Report → List Str → Assertion → Option Finding
finding_at r path assertion =
    find (λ f. assertion_eq f.assertion assertion && path_eq f.receipt_path path) r.findings

-- The order of a report: by receipt path, then by assertion.
unfoldable pub cmp_finding : Finding → Finding → Ordering
cmp_finding a b =
    then_with (Ord.cmp (list_ord {A = Str}) a.receipt_path b.receipt_path)
      (Ord.cmp nat_ord (assertion_rank a.assertion) (assertion_rank b.assertion))
