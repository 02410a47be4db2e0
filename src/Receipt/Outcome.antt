-- ===== src/Receipt/Outcome.antt =====
-- The three values of a completed run, the required assertions, the findings and the report of
-- receipt.rs. `derive(Ord)` orders an enum by the place of its variants.
use ahl_core.Prelude.{
  ℕ, Bool, true, some, List, [], ◌∷◌, Str, codes, ◌==◌, ◌≡◌, refl, ap, ==_iff, get_elem?, any,
}

pub data Outcome : Type 0 where
  verified unverifiable invalid : Outcome

abbrev pub outcome_rank : Outcome → ℕ
outcome_rank verified = 0
outcome_rank unverifiable = 1
outcome_rank invalid = 2

-- `Outcome::name`
unfoldable pub outcome_name : Outcome → Str
outcome_name verified = codes "verified"
outcome_name unverifiable = codes "unverifiable"
outcome_name invalid = codes "invalid"

abbrev pub outcome_eq : Outcome → Outcome → Bool
outcome_eq a b = outcome_rank a == outcome_rank b

pub data Assertion : Type 0 where
  versions resource_limits structure adaptor_profile anchoring governance : Assertion
  checkpoint_authentication witnesses envelope_validity cross_field claim_material : Assertion
  content_binding : Assertion

abbrev pub assertion_rank : Assertion → ℕ
assertion_rank versions = 0
assertion_rank resource_limits = 1
assertion_rank structure = 2
assertion_rank adaptor_profile = 3
assertion_rank anchoring = 4
assertion_rank governance = 5
assertion_rank checkpoint_authentication = 6
assertion_rank witnesses = 7
assertion_rank envelope_validity = 8
assertion_rank cross_field = 9
assertion_rank claim_material = 10
assertion_rank content_binding = 11

abbrev pub assertion_eq : Assertion → Assertion → Bool
assertion_eq a b = assertion_rank a == assertion_rank b

-- `Assertion::ORDER`
abbrev pub assertion_order : List Assertion
assertion_order =
    versions ∷ resource_limits ∷ structure ∷ adaptor_profile ∷ anchoring ∷ governance
    ∷ checkpoint_authentication ∷ witnesses ∷ envelope_validity ∷ cross_field ∷ claim_material
    ∷ content_binding ∷ []

-- `Assertion::name`
unfoldable pub assertion_name : Assertion → Str
assertion_name versions = codes "versions"
assertion_name resource_limits = codes "resource-limits"
assertion_name structure = codes "structure"
assertion_name adaptor_profile = codes "adaptor-profile"
assertion_name anchoring = codes "anchoring"
assertion_name governance = codes "governance"
assertion_name checkpoint_authentication = codes "checkpoint-authentication"
assertion_name witnesses = codes "witnesses"
assertion_name envelope_validity = codes "envelope-validity"
assertion_name cross_field = codes "cross-field"
assertion_name claim_material = codes "claim-material"
assertion_name content_binding = codes "content-binding"

-- The list is in the order of the ranks.
get_elem?-order : (a : Assertion) → get_elem? assertion_order (assertion_rank a) ≡ some a
get_elem?-order versions = refl
get_elem?-order resource_limits = refl
get_elem?-order structure = refl
get_elem?-order adaptor_profile = refl
get_elem?-order anchoring = refl
get_elem?-order governance = refl
get_elem?-order checkpoint_authentication = refl
get_elem?-order witnesses = refl
get_elem?-order envelope_validity = refl
get_elem?-order cross_field = refl
get_elem?-order claim_material = refl
get_elem?-order content_binding = refl

pub assertion_eq→eq : (a b : Assertion) → assertion_eq a b ≡ true → a ≡ b
assertion_eq→eq a b e = cc (
  get_elem?-order a,
  get_elem?-order b,
  ap (get_elem? assertion_order) ((==_iff (assertion_rank a) (assertion_rank b)).0 e),
)

pub order_complete : (a : Assertion) → any (assertion_eq a) assertion_order ≡ true
order_complete versions = refl
order_complete resource_limits = refl
order_complete structure = refl
order_complete adaptor_profile = refl
order_complete anchoring = refl
order_complete governance = refl
order_complete checkpoint_authentication = refl
order_complete witnesses = refl
order_complete envelope_validity = refl
order_complete cross_field = refl
order_complete claim_material = refl
order_complete content_binding = refl
