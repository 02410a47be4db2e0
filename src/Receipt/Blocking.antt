-- ===== src/Receipt/Blocking.antt =====
-- The assertions a run has blocked, and the findings that say why (receipt.rs, `Run::blocked`).
use ahl_core.Prelude.{
  Bool, true, false, not, ◌&&◌, ◌||◌, Option, List, [], ◌∷◌, ◌++◌, Str, ◌≡◌, inl, inr,
  if◌then◌else◌, arith, any, Bool-cases,
}
use ahl_core.Receipt.Outcome.{
  Outcome, verified, outcome_eq, Assertion, assertion_eq, assertion_eq→eq,
}
use ahl_core.Receipt.Report.{Detail, Finding}
use ahl_core.Receipt.Run.{Run, settle, is_at, is_blocked, block, record_finding}
use ahl_core.Receipt.Recorded.{path_eq_refl}

-- A finding of this assertion at this path that is not `verified`.
abbrev pub is_open : Assertion → List Str → Finding → Bool
is_open a path f = is_at a path f && not (outcome_eq f.outcome verified)

pub settle-open :
    (fs : List Finding) (a : Assertion) (path : List Str) (o : Outcome) (d : Option Detail)
    (rests_on : Option Assertion)
    → outcome_eq o verified ≡ false
    → any (is_open a path) (settle fs a path o d rests_on) ≡ true
unfolding settle
settle-open [] a path o d rests_on e = rw path_eq_refl (ground arith)
settle-open (f ∷ fs) a path o d rests_on e =
    ground (arith, settle-open fs a path o d rests_on e, path_eq_refl path)

pub settle-open_keep :
    (b : Assertion) (q : List Str) (fs : List Finding) (a : Assertion) (path : List Str)
    (o : Outcome) (d : Option Detail) (rests_on : Option Assertion)
    → any (is_open b q) fs ≡ true
    → any (is_open b q) (settle fs a path o d rests_on) ≡ true
unfolding settle
settle-open_keep b q [] a path o d rests_on e = cc
settle-open_keep b q (f ∷ fs) a path o d rests_on e =
    ground (arith, settle-open_keep b q fs a path o d rests_on)

-- Each blocked assertion has an open finding at the current path.
abbrev pub IsExplained : Run → Type 0
IsExplained run =
    (a : Assertion) → is_blocked run.blocked a ≡ true → any (is_open a run.path) run.findings ≡ true

any-snoc {ℓ} :
    {A : Type ℓ} (p : A → Bool) (xs : List A) (x : A) → any p (xs ++ x ∷ []) ≡ (any p xs || p x)
any-snoc p [] x = ground arith
any-snoc p (y ∷ ys) x = rw (any-snoc p ys x) (ground arith)

pub record_finding-IsExplained :
    (run : Run) (a : Assertion) (o : Outcome) (d : Option Detail) (rests_on : Option Assertion)
    → IsExplained run
    → IsExplained (record_finding run a o d rests_on)
unfolding record_finding
record_finding-IsExplained run a o d rests_on h b e =
    settle-open_keep b run.path run.findings a run.path o d rests_on (h b e)

pub block-IsExplained :
    (run : Run) (a : Assertion)
    → any (is_open a run.path) run.findings ≡ true
    → IsExplained run
    → IsExplained (block run a)
unfolding block
block-IsExplained run a opened h =
    elim (is_blocked run.blocked a)
      as (λ c. IsExplained (if c then run else record run { blocked = run.blocked ++ a ∷ [] })) [
        | true ↦ h
        | false ↦ λ b e. elim (Bool-cases (assertion_eq b a)) [
          | inl here ↦ rw (assertion_eq→eq b a here) opened
          | inr elsewhere ↦ h b (ground (arith, any-snoc (assertion_eq b) run.blocked a))
        ]
      ]

-- What an operation leaves blocked stays blocked.
pub block-blocked : (run : Run) (a : Assertion) → is_blocked (block run a).blocked a ≡ true
unfolding block
block-blocked run a = elim (Bool-cases (is_blocked run.blocked a)) [
  | inl old ↦ rw old old
  | inr new ↦ rw (new, any-snoc (assertion_eq a) run.blocked a) (ground arith)
]

-- Recording an outcome other than `verified` and blocking its assertion.
pub record-block-IsExplained :
    (run : Run) (a : Assertion) (o : Outcome) (d : Option Detail) (rests_on : Option Assertion)
    → outcome_eq o verified ≡ false
    → IsExplained run
    → IsExplained (block (record_finding run a o d rests_on) a)
unfolding record_finding
record-block-IsExplained run a o d rests_on e h =
    block-IsExplained _ a (settle-open run.findings a run.path o d rests_on e)
      (record_finding-IsExplained run a o d rests_on h)
