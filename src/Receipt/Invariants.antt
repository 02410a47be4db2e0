-- ===== src/Receipt/Invariants.antt =====
-- What holds of every run on a receipt: its findings, the assertions it has blocked, its result.
use ahl_core.Prelude.{
  true, Option, none, List, [], Str, ◌≡◌, inl, inr, refl, arith, any, Bool-cases,
}
use ahl_core.Receipt.Outcome.{Outcome, verified, Assertion}
use ahl_core.Receipt.Report.{Detail, Finding, reduce}
use ahl_core.Receipt.Run.{Run, settle, is_blocked, block, record_finding}
use ahl_core.Receipt.Recorded.{leo, leo_trans, leo-settle}
use ahl_core.Receipt.Blocking.{
  is_open, record_finding-IsExplained, record-block-IsExplained, settle-open_keep,
}
use ahl_core.Receipt.Steps.{IsStable, Reach, Reach-preserves}

abbrev Explained : List Finding → List Str → List Assertion → Type 0
Explained findings path blocked =
    (a : Assertion) → is_blocked blocked a ≡ true → any (is_open a path) findings ≡ true

Explained-IsStable : IsStable Explained
Explained-IsStable = record {
  on_verified = λ run a h. record_finding-IsExplained run a verified none none h;
  on_open = λ run a o d r e h. record-block-IsExplained run a o d r e h;
}

-- At every state that a run on one receipt reaches from one with nothing blocked, each blocked
-- assertion has a finding at the run's path whose outcome is not `verified`.
pub Reach-explained :
    (start run : Run)
    → Reach start run
    → start.blocked ≡ []
    → (a : Assertion) → is_blocked run.blocked a ≡ true
    → any (is_open a run.path) run.findings ≡ true
Reach-explained start run path none_blocked =
    Reach-preserves Explained Explained-IsStable start run path (λ a. rw none_blocked (λ e. cc))

block-findings : (run : Run) (a : Assertion) → (block run a).findings ≡ run.findings
unfolding block
block-findings run a = elim (Bool-cases (is_blocked run.blocked a)) [
  | inl old ↦ rw old refl
  | inr new ↦ rw new refl
]

-- A predicate on the findings that recording keeps.
module _ (Q : List Finding → Type 0)
    (kept : (fs : List Finding) (a : Assertion) (path : List Str) (o : Outcome) (d : Option Detail)
        (rests_on : Option Assertion)
      → Q fs
      → Q (settle fs a path o d rests_on)) where
  pub findings-IsStable : IsStable (λ findings path blocked. Q findings)
  unfolding record_finding
  findings-IsStable = record {
    on_verified = λ run a h. kept run.findings a run.path verified none none h;
    on_open = λ run a o d r e h. rw block-findings (kept run.findings a run.path o d r h);
  }

-- No step improves the result: the reduction of the findings never falls, and no finding that is
-- not `verified` becomes `verified` or goes away.
pub Reach-worsens :
    (start run : Run)
    → Reach start run
    → (leo (reduce start.findings) (reduce run.findings) ≡ true)
      × ((a : Assertion) (path : List Str)
          → any (is_open a path) start.findings ≡ true
          → any (is_open a path) run.findings ≡ true)
Reach-worsens start run reached = (
  Reach-preserves _
      (findings-IsStable (λ fs. leo (reduce start.findings) (reduce fs) ≡ true)
        (λ fs a p o d r h. leo_trans _ _ _ h (leo-settle fs a p o d r)))
      start run reached (ground arith),
  λ a path.
      Reach-preserves _
        (findings-IsStable
          (λ fs. any (is_open a path) start.findings ≡ true → any (is_open a path) fs ≡ true)
          (λ fs b p o d r h e. settle-open_keep a path fs b p o d r (h e)))
        start run reached (λ e. e),
)
