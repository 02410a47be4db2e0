-- ===== src/Receipt/Unreached.antt =====
-- The assertions that a run never reached (receipt.rs, `Run::fill_unreached`).
use ahl_core.Prelude.{
  Bool, true, not, ◌&&◌, ◌||◌, List, [], ◌∷◌, ◌≡◌, inl, inr, arith, any, Bool-cases,
}
use ahl_core.Receipt.Outcome.{
  unverifiable, Assertion, assertion_eq, content_binding, assertion_eq→eq,
}
use ahl_core.Receipt.Report.{reduce, path_eq}
use ahl_core.Receipt.Run.{Run, is_at, record_finding}
use ahl_core.Receipt.Ending.{fill_step, fill}
use ahl_core.Receipt.Recorded.{any-settle, any-settle_keep, leo, leo_trans, leo-settle}

-- The condition under which the loop leaves the run alone.
abbrev is_skipped : Run → Bool → Assertion → Bool
is_skipped run bc a = (assertion_eq a content_binding && not bc) || any (is_at a []) run.findings

module _ (bc : Bool) (stopped_at : Assertion) where
  step-path :
      (run : Run) (a : Assertion) → run.path ≡ [] → (fill_step run bc stopped_at a).path ≡ []
  unfolding fill_step record_finding
  step-path run a e = elim (Bool-cases (is_skipped run bc a)) [
    | inl skip ↦ rw skip e
    | inr go ↦ rw go e
  ]

  step-keep :
      (run : Run) (a b : Assertion)
      → run.path ≡ []
      → any (is_at b []) run.findings ≡ true
      → any (is_at b []) (fill_step run bc stopped_at a).findings ≡ true
  unfolding fill_step record_finding
  step-keep run a b p e = elim (Bool-cases (is_skipped run bc a)) [
    | inl skip ↦ rw skip e
    | inr go ↦ rw go (
        any-settle_keep (λ c path. assertion_eq c b && path_eq path []) run.findings a run.path
          unverifiable _ _ e)
  ]

  step-reaches :
      (run : Run) (a : Assertion)
      → run.path ≡ []
      → not (assertion_eq a content_binding) || bc ≡ true
      → any (is_at a []) (fill_step run bc stopped_at a).findings ≡ true
  unfolding fill_step record_finding
  step-reaches run a p c = elim (Bool-cases (is_skipped run bc a)) [
    | inl skip ↦ rw skip (ground arith)
    | inr go ↦ rw (go, p) (any-settle run.findings a [] unverifiable _ _)
  ]

  step-leo :
      (run : Run) (a : Assertion)
      → leo (reduce run.findings) (reduce (fill_step run bc stopped_at a).findings) ≡ true
  unfolding fill_step record_finding
  step-leo run a = elim (Bool-cases (is_skipped run bc a)) [
    | inl skip ↦ rw skip (ground arith)
    | inr go ↦ rw go (leo-settle run.findings a run.path unverifiable _ _)
  ]

  fill-keep :
      (run : Run) (as' : List Assertion) (b : Assertion)
      → run.path ≡ []
      → any (is_at b []) run.findings ≡ true
      → any (is_at b []) (fill run bc stopped_at as').findings ≡ true
  unfolding fill
  fill-keep run [] b p e = e
  fill-keep run (a ∷ rest) b p e =
      fill-keep (fill_step run bc stopped_at a) rest b (step-path run a p) (step-keep run a b p e)

  -- Every assertion of the list has its finding at the outermost path, a content binding that is
  -- not carried apart.
  pub fill-reaches :
      (run : Run) (as' : List Assertion) (b : Assertion)
      → run.path ≡ []
      → any (assertion_eq b) as' ≡ true
      → not (assertion_eq b content_binding) || bc ≡ true
      → any (is_at b []) (fill run bc stopped_at as').findings ≡ true
  unfolding fill
  fill-reaches run [] b p e c = cc
  fill-reaches run (a ∷ rest) b p e c = elim (Bool-cases (assertion_eq b a)) [
    | inl here ↦
        fill-keep (fill_step run bc stopped_at a) rest b (step-path run a p)
          (rw (assertion_eq→eq b a here) (step-reaches run a p (ground arith)))
    | inr not_here ↦
        fill-reaches (fill_step run bc stopped_at a) rest b (step-path run a p) (ground arith) c
  ]

  pub fill-leo :
      (run : Run) (as' : List Assertion)
      → leo (reduce run.findings) (reduce (fill run bc stopped_at as').findings) ≡ true
  unfolding fill
  fill-leo run [] = ground arith
  fill-leo run (a ∷ rest) =
      leo_trans _ _ _ (step-leo run a) (fill-leo (fill_step run bc stopped_at a) rest)
